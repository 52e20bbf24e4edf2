-- ===== src/Tests/Mailboxes.antt =====
-- Mailboxes that wait for responses.
use rtactor_rs.Base.{ℕ, ◌≡◌, ◌≢◌, refl, Option, none, some, List, [], ◌∷◌, ◌++◌, arith, inl, inr}
use rtactor_rs.Actor.Message.{
  Any, value, boxed, Message, ok_response, err_response, notification, queue_full,
}
use rtactor_rs.Actor.World.{ok, err}
use rtactor_rs.Active.Mailbox.{
  ActiveMailbox, RecvTimeout, arrived, timed_out, request_loop, request_round, generate_request_id,
}
use rtactor_rs.Active.Mailbox.Requests.{stash, Answered, request_loop_lem, request_loop-Answered}
use rtactor_rs.Active.Mailbox.Stash.{
  get_messages, generate_times, get_messages-reverse, generate_request_id-distinct,
}
use rtactor_rs.Tests.Sample.{sample_env, sample_world}

-- The user's data is the awaited type.
abbrev as_value : Any sample_env → Option ℕ
as_value (value n) = some n
as_value _ = none

abbrev mailbox : ActiveMailbox sample_env
mailbox = record { id = 3; tx = 0; last_request_id = 8; message_list = [] }

-- A late response of the awaited type, one of another type, and a notification.
abbrev others : List (RecvTimeout sample_env)
others =
    arrived (ok_response 7 (value 1))
    ∷ arrived (ok_response 8 (boxed (value 2)))
    ∷ arrived (notification (value 3))
    ∷ []

abbrev stashed_others : List (Message sample_env)
stashed_others = ok_response 8 (boxed (value 2)) ∷ notification (value 3) ∷ []

request_loop_lem_example :
    (request_loop as_value 8 mailbox (others ++ arrived (ok_response 8 (value 4)) ∷ timed_out ∷ [])
      ≡ some (ok 4, stash mailbox stashed_others, timed_out ∷ []))
    × (request_loop as_value 8 mailbox
          (others ++ arrived (err_response 7 queue_full (value 4)) ∷ timed_out ∷ [])
        ≡ some (err queue_full, stash mailbox stashed_others, timed_out ∷ []))
request_loop_lem_example =
    request_loop_lem as_value 8 mailbox others (timed_out ∷ []) (value 4) 4 7 queue_full (value 4)
      (inr (omega arith), (inl refl, (tt, tt))) refl

request_loop-Answered_example :
    Answered as_value 8 mailbox
      (others ++ arrived (ok_response 8 (value 4)) ∷ [])
      4
      (stash mailbox stashed_others)
      []
unfolding request_loop request_round
request_loop-Answered_example =
    request_loop-Answered as_value 8 mailbox (stash mailbox stashed_others)
      (others ++ arrived (ok_response 8 (value 4)) ∷ []) [] 4 refl

get_messages-reverse_example :
    get_messages 2
      (record mailbox { message_list = notification (value 2) ∷ notification (value 1) ∷ [] })
      (sample_world [] [])
    ≡ some (notification (value 1) ∷ notification (value 2) ∷ [], mailbox, sample_world [] [])
get_messages-reverse_example =
    get_messages-reverse (notification (value 1) ∷ notification (value 2) ∷ []) mailbox
      (sample_world [] [])

generate_request_id-distinct_example :
    (generate_request_id (generate_times 3 mailbox)).0 ≢ (generate_request_id mailbox).0
generate_request_id-distinct_example =
    generate_request_id-distinct mailbox 2 (omega arith) (omega arith)
