-- ===== src/Hub/Cursor/Pages.antt =====
-- A reader that follows `nextAfter` through the pages of the hub's log.
use ai_control_hud.Prelude.{
  ℕ, ℤ, pos, zero, suc, ◌≤◌, ◌<◌, ◌≡◌, refl, String, true, Option, none, some, List, [], ◌∷◌, ◌++◌,
  select, take, drop, length, length-drop, take-append-drop, arith, ok, err, ◌>>=◌, >>=-eq-ok,
}
use ai_control_hud.Prelude.Result.{Result}
use ai_control_hud.Hub.Store.{
  HubEnv, HubRow, Db, HubEvent, past, of_agent, max_seq, decode_hub_row, decode_hub_rows,
  list_events,
}
use ai_control_hud.Hub.Server.{last_seq_of}
use ai_control_hud.Hub.Log.Sound.{IsSound}
use ai_control_hud.Hub.Cursor.Suffix.{last_key, page_rest}

module _ {F : Type 0} (env : HubEnv F) where
  decode_hub_row-seq : (r : HubRow) (e : HubEvent) → decode_hub_row env r ≡ ok e → e.seq ≡ r.seq
  unfolding decode_hub_row
  decode_hub_row-seq r e h = ground arith

  last_seq_of-decode :
      (rs : List HubRow) (es : List HubEvent) (a : ℕ)
      → decode_hub_rows env rs ≡ ok es
      → last_seq_of (pos a) es ≡ pos (last_key a rs)
  unfolding decode_hub_rows
  last_seq_of-decode [] es a h = let e : es ≡ [] = cc in rw e
  last_seq_of-decode (r ∷ rs) es a h =
      let (e, p, k) = >>=-eq-ok (decode_hub_row env r) _ h in
      let (es', q, m) = >>=-eq-ok (decode_hub_rows env rs) _ k in
      let same : es ≡ e ∷ es' = cc in
      ground (arith, same, decode_hub_row-seq r e p, last_seq_of-decode rs es' r.seq q)

  decode-take :
      (n : ℕ) (rs : List HubRow) (es : List HubEvent)
      → decode_hub_rows env rs ≡ ok es
      → (decode_hub_rows env (take n rs) ≡ ok (take n es))
        × (decode_hub_rows env (drop n rs) ≡ ok (drop n es))
  unfolding decode_hub_rows
  decode-take zero rs es h = (refl, h)
  decode-take (suc n) [] es h = let e : es ≡ [] = cc in rw e (refl, refl)
  decode-take (suc n) (r ∷ rs) es h =
      let (e, p, k) = >>=-eq-ok (decode_hub_row env r) _ h in
      let (es', q, m) = >>=-eq-ok (decode_hub_rows env rs) _ k in
      let same : es ≡ e ∷ es' = cc in
      let (t, d) = decode-take n rs es' q in rw same (rw (p, t) refl, d)

  -- Every event of an agent past a key, in the order of the log.
  abbrev pub feed : String → ℕ → Db → List HubRow
  feed agent_id after db = select (past agent_id after) db.events

  -- The reader: it asks for pages until one is empty; none if the fuel runs out.
  unfoldable pub crawl : ℕ → String → ℕ → ℤ → Db → Option (Result (List HubEvent))
  crawl zero agent_id limit after db = none
  crawl (suc fuel) agent_id limit after db =
      elim (list_events env (λ _. true) agent_id after limit db) [
        | err e ↦ some (err e)
        | ok (items, latest) ↦ elim items [
          | [] ↦ some (ok [])
          | e ∷ es ↦ elim (crawl fuel agent_id limit (last_seq_of after (e ∷ es)) db) [
            | none ↦ none
            | some rest ↦ some (do more ← rest; ok ((e ∷ es) ++ more))
          ]
        ]
      ]

  list_events_page :
      (agent_id : String) (after limit : ℕ) (db : Db) (es : List HubEvent)
      → 0 < limit
      → limit ≤ 100
      → decode_hub_rows env (feed agent_id after db) ≡ ok es
      → list_events env (λ _. true) agent_id (pos after) limit db
        ≡ ok (take limit es, max_seq (select (of_agent agent_id) db.events))
  unfolding list_events
  list_events_page agent_id after limit db es l m h =
      ground (arith, (decode-take limit (feed agent_id after db) es h).0)

  -- In a sound log that does not change meanwhile, with every statement successful and every row of
  -- the agent past a cursor decoded: a reader that follows `nextAfter` from that cursor, with pages
  -- of any allowed size, gets each of these events, once and in the order of the log; fuel for one
  -- page more than there are events is enough.
  pub crawl_all :
      (fuel : ℕ) (agent_id : String) (limit after : ℕ) (db : Db) (es : List HubEvent)
      → IsSound db
      → 0 < limit
      → limit ≤ 100
      → decode_hub_rows env (feed agent_id after db) ≡ ok es
      → length es < fuel
      → crawl fuel agent_id limit (pos after) db ≡ some (ok es)
  unfolding crawl
  crawl_all zero agent_id limit after db es s l m h f = elim f [ ]
  crawl_all (suc fuel) agent_id zero after db es s l m h f = elim l [ ]
  crawl_all (suc fuel) agent_id (suc n) after db [] s l m h f =
      ground (arith, list_events_page agent_id after (suc n) db [] l m h)
  crawl_all (suc fuel) agent_id (suc n) after db (e ∷ es) s l m h f =
      let page = list_events_page agent_id after (suc n) db (e ∷ es) l m h in
      let (t, d) = decode-take (suc n) (feed agent_id after db) (e ∷ es) h in
      let next : ℕ = last_key after (take (suc n) (feed agent_id after db)) in
      let step : last_seq_of (pos after) (e ∷ take n es) ≡ pos next =
        last_seq_of-decode (take (suc n) (feed agent_id after db)) (e ∷ take n es) after t in
      let rest = page_rest agent_id after (suc n) 0 db.last_seq db.events s.keyed in
      let ih =
        crawl_all fuel agent_id (suc n) next db (drop n es) s l m (rw rest d)
          (omega (arith, length-drop n es)) in
      ground (arith, page, step, ih, take-append-drop n es)
