-- ===== src/Remote/Keeps.antt =====
-- The steps of agent/internal/remote/runtime.go that stay on the agent's side: what they take from
-- the outbox.
use ai_control_hud.Prelude.{
  ℕ, ◌≡◌, refl, subst, String, Bool, true, false, not, ◌||◌, Option, some, none, List, [], ◌∷◌,
  arith, ok, Error, err, str_eq, eq_iff, Bool-cases, inl, inr, ltb,
}
use ai_control_hud.Prelude.Result.{Result}
use ai_control_hud.Domain.{Time, HudState, is_zero}
use ai_control_hud.Events.{Event}
use ai_control_hud.Events.Outbox.{Env, Io, Outbox, pending, ack, observe}
use ai_control_hud.Hub.Store.{Db, has_event}
use ai_control_hud.Remote.Delivery.{
  Agent, Phase, resting, holding, uploaded, after_pending, after_ack, fetch, acknowledge,
  acknowledge_from, compact_after, observe_round,
}
use ai_control_hud.Remote.Wire.{Link}
use ai_control_hud.Remote.Grows.{Grows, Grows-refl}
use ai_control_hud.Remote.Landing.{Lists}
use ai_control_hud.Remote.Outflow.{queued, among, observe-keeps, maintain-events, ack-keeps}

-- What the delivery loop is about to acknowledge is in the log.
abbrev pub Told : Phase → Db → Type 0
Told resting db = Unit {0}
Told (holding es) db = Unit {0}
Told (uploaded ids) db = Lists db ids

-- The id is in the outbox or in the log.
abbrev pub known : {F : Type 0} → String → Agent → Link F → Bool
known id a l = queued id a.outbox || has_event id l.server.db.events

-- What a step has to show.
pub record Keeps {F : Type 0} (a : Agent) (l : Link F) (a' : Agent) (l' : Link F) : Type 0 where
  pub told : Told a.phase l.server.db → Told a'.phase l'.server.db
  pub kept : (id : String) → Told a.phase l.server.db → known id a l ≡ true → known id a' l' ≡ true
  pub forward : Grows l.server.db l'.server.db

Lists-Grows : (x y : Db) (ids : List String) → Grows x y → Lists x ids → Lists y ids
Lists-Grows x y [] g a = tt
Lists-Grows x y (id ∷ ids) g (h, a) = (g.stays id h, Lists-Grows x y ids g a)

pub Told-Grows : (x y : Db) (p : Phase) → Grows x y → Told p x → Told p y
Told-Grows x y resting g t = tt
Told-Grows x y (holding es) g t = tt
Told-Grows x y (uploaded ids) g t = Lists-Grows x y ids g t

among-logged :
    (db : Db) (ids : List String) (id : String)
    → Lists db ids
    → among id ids ≡ true
    → has_event id db.events ≡ true
among-logged db [] id a h = cc
among-logged db (j ∷ ids) id (k, a) h = elim (Bool-cases (str_eq j id)) [
  | inl same ↦ subst (λ i. has_event i db.events ≡ true) ((eq_iff j id).0 same) k
  | inr other ↦ among-logged db ids id a (ground arith)
]

either :
    (p q p' q' : Bool)
    → (p ≡ true → p' ≡ true)
    → (q ≡ true → q' ≡ true)
    → (p || q) ≡ true
    → (p' || q') ≡ true
either true q true q' f g h = refl
either true q false q' f g h = absurd (let e = f refl in cc)
either false true true q' f g h = refl
either false true false q' f g h = g refl
either false false p' q' f g h = absurd (cc)

or_right : (p q : Bool) → q ≡ true → (p || q) ≡ true
or_right true q h = refl
or_right false q h = h

after_ack-outbox : (a : Agent) (o : Outbox × Option Error) → (after_ack a o).outbox ≡ o.0
after_ack-outbox a (db, none) = refl
after_ack-outbox a (db, some e) = refl

after_ack-Told : (a : Agent) (o : Outbox × Option Error) (db : Db) → Told (after_ack a o).phase db
after_ack-Told a (x, none) db = tt
after_ack-Told a (x, some e) db = tt

module _ {F : Type 0} where
  -- A step that leaves the hub, and takes no row from the outbox.
  pub Keeps-local :
      (a a' : Agent) (l : Link F)
      → (Told a.phase l.server.db → Told a'.phase l.server.db)
      → ((id : String) → queued id a.outbox ≡ true → queued id a'.outbox ≡ true)
      → Keeps a l a' l
  Keeps-local a a' l t q = record {
    told = t;
    kept = λ id _ k. either (queued id a.outbox) _ (queued id a'.outbox) _ (q id) (λ h. h) k;
    forward = Grows-refl l.server.db;
  }

  -- A step that leaves the outbox.
  pub Keeps-remote :
      (a a' : Agent) (l l' : Link F)
      → a'.outbox ≡ a.outbox
      → (Told a.phase l.server.db → Told a'.phase l'.server.db)
      → Grows l.server.db l'.server.db
      → Keeps a l a' l'
  Keeps-remote a a' l l' e t g = record {
    told = t;
    kept = λ id _ k.
        either (queued id a.outbox) _ (queued id a'.outbox) _ (λ h. rw e h) (g.stays id) k;
    forward = g;
  }

  after_pending-Keeps :
      (a : Agent) (r : Result (List Event)) (l : Link F) → Keeps a l (after_pending a r) l
  after_pending-Keeps a (err e) l = Keeps-local a _ l (λ _. tt) (λ id h. h)
  after_pending-Keeps a (ok []) l = Keeps-local a _ l (λ _. tt) (λ id h. h)
  after_pending-Keeps a (ok (e ∷ es)) l = Keeps-local a _ l (λ _. tt) (λ id h. h)

  pub fetch-Keeps : (env : Env) (io : Io) (a : Agent) (l : Link F) → Keeps a l (fetch env io a) l
  unfolding fetch
  fetch-Keeps env io a l = after_pending-Keeps a (pending env io a.outbox 100) l

  -- An id that `Ack` takes from the outbox is in the log.
  acknowledge_from-Keeps :
      (io : Io) (p : Phase) (a : Agent) (l : Link F)
      → a.phase ≡ p
      → Keeps a l (acknowledge_from io p a) l
  unfolding acknowledge_from
  acknowledge_from-Keeps io resting a l e = Keeps-local a a l (λ t. t) (λ id h. h)
  acknowledge_from-Keeps io (holding es) a l e = Keeps-local a a l (λ t. t) (λ id h. h)
  acknowledge_from-Keeps io (uploaded ids) a l e = record {
    told = λ _. after_ack-Told a (ack io ids a.outbox) l.server.db;
    kept = λ id t k. elim (Bool-cases (among id ids)) [
      | inl mine ↦
          let told : Lists l.server.db ids = subst (λ p. Told p l.server.db) e t in
          or_right _ _ (among-logged l.server.db ids id told mine)
      | inr other ↦
          either (queued id a.outbox) _ (queued id (after_ack a (ack io ids a.outbox)).outbox) _
            (λ q.
              rw (after_ack-outbox a (ack io ids a.outbox)) (ack-keeps io ids a.outbox id other q))
            (λ h. h) k
    ];
    forward = Grows-refl l.server.db;
  }

  pub acknowledge-Keeps : (io : Io) (a : Agent) (l : Link F) → Keeps a l (acknowledge io a) l
  unfolding acknowledge
  acknowledge-Keeps io a l = acknowledge_from-Keeps io a.phase a l refl

  pub observe_round-Keeps :
      (env : Env) (io io' : Io) (draw : ℕ → Option String) (s : HudState F) (now : Time) (a : Agent)
      (l : Link F)
      → Keeps a l (observe_round env io io' draw s now a) l
  unfolding observe_round
  observe_round-Keeps env io io' draw s now a l =
      elim (Bool-cases (is_zero a.next_maintenance || not (ltb now a.next_maintenance))) [
        | inl due ↦ rw due (
            Keeps-local a _ l (λ t. t)
              (λ id q.
                rw
                  (maintain-events env io' now compact_after (observe env io draw s now a.outbox).0)
                  (observe-keeps env io draw s now a.outbox id q)))
        | inr early ↦
            rw early
              (Keeps-local a _ l (λ t. t) (λ id q. observe-keeps env io draw s now a.outbox id q))
      ]
