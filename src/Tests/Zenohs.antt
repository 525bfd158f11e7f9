-- ===== src/Tests/Zenohs.antt =====
-- Two operations of the Zenoh client on one router.
use wotpy.Prelude.{String, none, ◌≡◌, refl, string_eq, true, List, [], ◌∷◌}
use wotpy.Outcome.{ok, raised, key_error, assertion_error}
use wotpy.Dict
use wotpy.Json.{null}
use wotpy.Zenoh.Client.{
  ZenohClient, new_zenoh_client, open_session, zenoh_subscribe, zenoh_disconnect_client,
  zenoh_wait_on_message,
}
use wotpy.Zenoh.Calls.{zenoh_read_request, zenoh_read_ends}
use wotpy.Zenoh.Linked.{
  IsLinked, ZenohOp, op_open, op_subscribe, op_deliver, op_disconnect, run_ops,
}
use wotpy.Zenoh.Runs.{run_ops-IsLinked}
use wotpy.Zenoh.Shared.{
  zenoh_wait_on_message-zenoh_disconnect_client, zenoh_read_ends-zenoh_read_request,
}

abbrev four_ops : List ZenohOp
four_ops =
    op_open "tcp/r" (ok tt)
    ∷ op_subscribe "tcp/r" "t" (ok tt)
    ∷ op_deliver 10 "tcp/r" "t" (ok null) "m" 1 2
    ∷ op_disconnect "tcp/r" "t"
    ∷ []

run_ops-IsLinked_example : IsLinked (run_ops four_ops new_zenoh_client) "tcp/r"
run_ops-IsLinked_example = run_ops-IsLinked four_ops "tcp/r"

abbrev opened : ZenohClient
opened = open_session "tcp/r" new_zenoh_client

has_session : Dict.contains "tcp/r" opened.tables.clients ≡ true
unfolding Dict.contains Dict.set
has_session = refl

no_subscribers : Dict.get "tcp/r" opened.subscribers ≡ none
unfolding Dict.get
no_subscribers = refl

abbrev both : ZenohClient
both = (zenoh_subscribe "tcp/r" "t" (ok tt) (zenoh_subscribe "tcp/r" "t" (ok tt) opened).1).1

zenoh_wait_on_message-zenoh_disconnect_client_example :
    (zenoh_wait_on_message "tcp/r" "t" both ≡ ok tt)
    × (zenoh_wait_on_message "tcp/r" "t" (zenoh_disconnect_client "tcp/r" "t" both).1
        ≡ raised (assertion_error "Unknown router URL"))
zenoh_wait_on_message-zenoh_disconnect_client_example =
    zenoh_wait_on_message-zenoh_disconnect_client "tcp/r" "t" opened has_session no_subscribers

zenoh_read_ends-zenoh_read_request_example :
    let z' =
      (zenoh_read_request {A = String} "tcp/r" "tcp/o" "t" "read"
        (ok tt)
        (ok tt)
        (ok tt)
        (ok tt)
        new_zenoh_client).1 in
    zenoh_read_ends "tcp/r" "q" "tcp/o" "t" z' ≡ (raised (key_error "tcp/r"), z')
zenoh_read_ends-zenoh_read_request_example =
    zenoh_read_ends-zenoh_read_request {A = String} "tcp/r" "q" "tcp/o" "t" "read" (ok tt) (ok tt)
      (ok tt) (ok tt) new_zenoh_client refl no_subscribers
