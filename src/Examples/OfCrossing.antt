-- ===== src/Examples/OfCrossing.antt =====
-- The theorem on crossed requests, at two posts of one snapshot.
use ai_control_hud.Prelude.{◌≡◌, refl, ℕ, ok, true, none, some, arith}
use ai_control_hud.Hub.Models.{StateEnvelope}
use ai_control_hud.Hub.Store.{Io, created, record_state, record_state_tx, upsert_agent}
use ai_control_hud.Hub.Server.{Server, accept_state, load_primary_state}
use ai_control_hud.Hub.Cached.Loads.{stored}
use ai_control_hud.Hub.Cached.Crossed.{persist, publish, crossed_posts}
use ai_control_hud.Examples.OfSnapshots.{accepted}
use ai_control_hud.Examples.Samples.{whole, sample_state, hub_env, hub_laws, encodes_state}

abbrev works : Io
works _ = true

abbrev server : Server ℕ
server = record {
  config = record { agent_token = "secret"; primary_agent_id = "a1"; stale_after = 90 };
  version = "1.0";
  started_at = 1;
  db = created;
  cache = none;
}

abbrev post : StateEnvelope ℕ
post = record { agent_id = "a1"; sent_at = 8; state = sample_state }

first_done : (record_state hub_env works "a1" 8 sample_state 9 created).1 ≡ none
unfolding record_state record_state_tx upsert_agent
first_done = ground (arith, encodes_state)

second_done :
    (record_state hub_env works "a1" 8 sample_state 11
      (persist whole hub_env works 9 post server).db).1
    ≡ none
unfolding record_state record_state_tx upsert_agent
second_done = ground (arith, encodes_state)

crossed_posts_example :
    ((accept_state whole hub_env works 9 server post).0
      ≡ publish whole hub_env 9 post (persist whole hub_env works 9 post server))
    × ((accept_state whole hub_env works 11 (persist whole hub_env works 9 post server) post).0
        ≡ publish whole hub_env 11 post
            (persist whole hub_env works 11 post (persist whole hub_env works 9 post server)))
    × ((load_primary_state whole hub_env works (
          publish whole hub_env 9 post (
            publish whole hub_env 11 post
              (persist whole hub_env works 11 post (persist whole hub_env works 9 post server))))).1
        ≡ ok (some (record { state = sample_state; last_seen = 9 })))
    × (stored whole hub_env "a1"
          (publish whole hub_env 9 post (
            publish whole hub_env 11 post
              (persist whole hub_env works 11 post (persist whole hub_env works 9 post server)))).db
        ≡ ok (some (record { state = sample_state; last_seen = 11 })))
crossed_posts_example =
    crossed_posts whole hub_env hub_laws works works works 9 11 post post server refl refl accepted
      first_done second_done
