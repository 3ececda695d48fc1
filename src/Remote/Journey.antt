-- ===== src/Remote/Journey.antt =====
-- A posting of agent/internal/remote/client.go that succeeds has had a 2xx answer to its payload.
use ai_control_hud.Prelude.{
  ℕ, ◌≤◌, ◌<◌, ◌≡◌, refl, ◌∙◌, subst, String, Option, none, some, str_eq, str_append, Error, ok,
  err, within, arith, Bool-cases, inl, inr,
}
use ai_control_hud.Prelude.Result.{Result}
use ai_control_hud.Remote.Config.{Config, is_auto_discover}
use ai_control_hud.Remote.Client.{
  Client, Upload, HttpRequest, Network, check_status, invalidate_resolved_base_url, request_to,
  post_json_at, keep_address, resolve_base_url, retry_at, after_first, post_resolved, post_json,
}

module _ {F W : Type 0} (net : Network F W) (R : W → W → Type 0) where
  -- The last exchange had this payload, this token and an answer of 2xx.
  pub record Landed (token : String) (up : Upload F) (w w' : W) : Type 0 where
    pub request : HttpRequest F
    pub from : W
    pub code : ℕ
    pub before : R w from
    pub exchange : net.http_do request from ≡ (w', some code)
    pub payload : request.payload ≡ up
    pub signed : request.authorization ≡ str_append "Bearer " token
    pub low : 200 ≤ code
    pub high : code < 300

  -- What a step that ends in a client, a world and a result has to show.
  abbrev pub Travels : Config → Upload F → W → Client × W × Result (Unit {0}) → Type 0
  Travels g up w (c, w', r) = R w w' × (r ≡ ok tt → Landed g.token up w w') × (c.config ≡ g)

module _ {F W : Type 0} (net : Network F W) (R : W → W → Type 0) (here : (w : W) → R w w)
    (joins : (u v w : W) → R u v → R v w → R u w)
    (does : (q : HttpRequest F) (w : W) → R w (net.http_do q w).0)
    (finds : (w : W) → R w (net.discover w).0) where
  Landed-after :
      (token : String) (up : Upload F) (u v w : W)
      → R u v
      → Landed net R token up v w
      → Landed net R token up u w
  Landed-after token up u v w r l = record {
    request = l.request;
    from = l.from;
    code = l.code;
    before = joins u v l.from r l.before;
    exchange = l.exchange;
    payload = l.payload;
    signed = l.signed;
    low = l.low;
    high = l.high;
  }

  post_json_at-R :
      (c : Client) (url : String) (up : Upload F) (w : W) → R w (post_json_at net c url up w).0
  unfolding post_json_at
  post_json_at-R c url up w = elim (Bool-cases (net.makes_request url)) [
    | inl made ↦ rw made (does _ w)
    | inr bad ↦ rw bad (here w)
  ]

  -- The case of a request that is made, by the status of its answer.
  answered-Landed :
      (token : String) (up : Upload F) (w : W) (q : HttpRequest F) (o : W × Option ℕ)
      → q.payload ≡ up
      → q.authorization ≡ str_append "Bearer " token
      → net.http_do q w ≡ o
      → check_status o.1 ≡ ok tt
      → Landed net R token up w o.0
  unfolding check_status
  answered-Landed token up w q (w', none) p s e h = absurd (cc)
  answered-Landed token up w q (w', some code) p s e h = record {
    request = q;
    from = w;
    code = code;
    before = here w;
    exchange = e;
    payload = p;
    signed = s;
    low = ground arith;
    high = ground arith;
  }

  post_json_at-Landed :
      (c : Client) (url : String) (up : Upload F) (w : W)
      → (post_json_at net c url up w).1 ≡ ok tt
      → Landed net R c.config.token up w (post_json_at net c url up w).0
  unfolding post_json_at
  post_json_at-Landed c url up w = elim (Bool-cases (net.makes_request url)) [
    | inl made ↦ rw made (λ h.
        answered-Landed c.config.token up w (request_to net c url up)
          (net.http_do (request_to net c url up) w) refl refl refl h)
    | inr bad ↦ rw bad (λ h. absurd (cc))
  ]

  -- The discovery leaves the configuration.
  abbrev Found : Client → W → Client × W × Result String → Type 0
  Found c w (c', w', r) = R w w' × (c'.config ≡ c.config)

  keep_address-Found :
      (c : Client) (w : W) (o : W × Result String) → R w o.0 → Found c w (keep_address net c o)
  unfolding keep_address
  keep_address-Found c w (w', err e) r = (r, refl)
  keep_address-Found c w (w', ok url) r = (r, refl)

  resolve-Found : (c : Client) (w : W) → Found c w (resolve_base_url net c w)
  unfolding resolve_base_url
  resolve-Found c w = elim (Bool-cases (is_auto_discover c.config)) [
    | inr configured ↦ rw configured (here w, refl)
    | inl auto ↦ elim (Bool-cases (str_eq c.resolved_base_url "")) [
      | inr known ↦ rw (auto, known) (here w, refl)
      | inl unknown ↦ rw (auto, unknown) (keep_address-Found c w (net.discover w) (finds w))
    ]
  ]

  -- A posting at an address, after the steps that led there.
  posted :
      (g : Config) (c : Client) (url : String) (up : Upload F) (u w : W) (r : Result (Unit {0}))
      → R u w
      → c.config ≡ g
      → (r ≡ ok tt → (post_json_at net c url up w).1 ≡ ok tt)
      → Travels net R g up u (c, (post_json_at net c url up w).0, r)
  posted g c url up u w r before k only =
      let w' = (post_json_at net c url up w).0 in
      (
        joins u w w' before (post_json_at-R c url up w),
        λ h. Landed-after g.token up u w w' before (
            subst (λ (t : Config). Landed net R t.token up w w') k
              (post_json_at-Landed c url up w (only h))),
        k,
      )

  within-eq-ok : (s : String) (r : Result (Unit {0})) → within s r ≡ ok tt → r ≡ ok tt
  within-eq-ok s (ok tt) h = refl
  within-eq-ok s (err e) h = absurd (cc)

  retry_at-Travels :
      (g : Config) (tried : String) (failure : Error) (up : Upload F) (u w : W)
      (o : Client × W × Result String)
      → R u w
      → o.0.config ≡ g
      → R w o.1
      → Travels net R g up u (retry_at net tried failure up o)
  unfolding retry_at
  retry_at-Travels g tried failure up u w (c, w', err e) r k f =
      (joins u w w' r f, λ h. absurd (cc), k)
  retry_at-Travels g tried failure up u w (c, w', ok url) r k f =
      elim (Bool-cases (str_eq url tried)) [
        | inl same ↦ rw same (joins u w w' r f, (λ h. absurd (cc)), k)
        | inr new ↦ rw new (
            posted g c url up u w'
              (within "hub request failed after rediscovery" (post_json_at net c url up w').1)
              (joins u w w' r f) k (within-eq-ok _ (post_json_at net c url up w').1))
      ]

  invalidate-config :
      (url : String) (c : Client) → (invalidate_resolved_base_url url c).config ≡ c.config
  unfolding invalidate_resolved_base_url
  invalidate-config url c = ground arith

  -- By what the first attempt gave.
  followed :
      (c : Client) (url : String) (up : Upload F) (u : W) (o : W × Result (Unit {0}))
      → R u o.0
      → (o.1 ≡ ok tt → Landed net R c.config.token up u o.0)
      → Travels net R c.config up u (after_first net c url up o)
  unfolding after_first
  followed c url up u (w, ok tt) r l = (r, l, refl)
  followed c url up u (w, err x) r l = elim (Bool-cases (is_auto_discover c.config)) [
    | inr configured ↦ rw configured (r, (λ h. absurd (cc)), refl)
    | inl auto ↦
        let d = invalidate_resolved_base_url url c in
        let f = resolve-Found d w in
        let k = invalidate-config url c in
        rw auto (retry_at-Travels c.config url x up u w (resolve_base_url net d w) r (f.1 ∙ k) f.0)
  ]

  post_resolved-Travels :
      (g : Config) (up : Upload F) (u : W) (o : Client × W × Result String)
      → o.0.config ≡ g
      → R u o.1
      → Travels net R g up u (post_resolved net up o)
  unfolding post_resolved
  post_resolved-Travels g up u (c, w, err e) k r = (r, (λ h. absurd (cc)), k)
  post_resolved-Travels g up u (c, w, ok url) k r =
      subst (λ (t : Config). Travels net R t up u (post_resolved net up (c, w, ok url))) k
        (followed c url up u (post_json_at net c url up w)
          (joins u w (post_json_at net c url up w).0 r (post_json_at-R c url up w))
          (λ h.
            Landed-after c.config.token up u w (post_json_at net c url up w).0 r
              (post_json_at-Landed c url up w h)))

  -- A posting passes from world to world by exchanges and discoveries alone, keeps the
  -- configuration, and succeeds only if its last exchange carried the payload under the token and
  -- was answered with a 2xx.
  pub post_json_lem :
      (c : Client) (up : Upload F) (w : W) → Travels net R c.config up w (post_json net c up w)
  unfolding post_json
  post_json_lem c up w = elim (Bool-cases (net.encodes up)) [
    | inr bad ↦ rw bad (here w, (λ h. absurd (cc)), refl)
    | inl good ↦
        let f = resolve-Found c w in
        rw good (post_resolved-Travels c.config up w (resolve_base_url net c w) f.1 f.0)
  ]
