-- ===== src/Upgrade/Client/Tests.antt =====
-- A client against the controller of the server's tests.
use Prim.Native.String.{String}
use ping_santo.Prelude.{◌≡◌, ◌≢◌, inl, refl, some, arith}
use ping_santo.Prelude.Texts.{same_iff}
use ping_santo.Server.Access.{authorize_admin}
use ping_santo.Server.Admin.{admin_upsert_plan_handler}
use ping_santo.Server.Memory.{memory_plans, formats_of}
use ping_santo.Server.Tests.{trim, texts, cfg, request, store, wanted}
use ping_santo.Upgrade.Client.{Client, Plan, fetched, unmodified, fetch_plan}
use ping_santo.Upgrade.Client.Exchange.{
  controller, published, received, IsFor, published_plan_fetched,
}

abbrev client : Client
client = record { agent_id = "a1"; base = request }

abbrev etag : String
etag = texts.etag (published texts cfg 5 9 request client "" wanted store)

abbrev plan : Plan
plan = received texts cfg 5 9 request client "" wanted store

own_plan : IsFor texts cfg 5 9 request client "" wanted store
own_plan = inl refl

tagged : etag ≢ ""
tagged e = ground (arith, (same_iff "2.0" "").1 e)

published_plan_fetched_example :
    let m' =
      (admin_upsert_plan_handler
        (formats_of texts)
        cfg
        (memory_plans texts 5)
        request
        (some wanted)
        store).1 in
    (fetch_plan trim client (controller texts cfg 5 9 request client "" wanted store m') "" ""
      ≡ fetched plan etag)
    × (fetch_plan trim client (controller texts cfg 5 9 request client "" wanted store m') "" etag
        ≡ unmodified etag)
unfolding authorize_admin
published_plan_fetched_example =
    published_plan_fetched texts cfg 5 9 request client "" wanted store refl refl refl refl tagged
      own_plan
