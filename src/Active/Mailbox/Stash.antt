-- ===== src/Active/Mailbox/Stash.antt =====
-- The order in which stashed messages come back, and the ids of requests.
use rtactor_rs.Base.{
  ℕ, zero, suc, ◌+◌, ◌%◌, ◌<◌, ◌≡◌, ◌≢◌, refl, Option, none, some, List, [], ◌∷◌, ◌++◌, arith,
  u32_mod, length,
}
use mathlib.Core.Option
use mathlib.Core.List.{reverse, reverse-cons}
use rtactor_rs.Actor.Message.{Env, Message}
use rtactor_rs.Actor.World.{World, ok, err}
use rtactor_rs.Active.Mailbox.{ActiveMailbox, pop_back, try_get_message, generate_request_id}

pop_back-append {ℓ} : {A : Type ℓ} (xs : List A) (x : A) → pop_back (xs ++ x ∷ []) ≡ some (x, xs)
unfolding pop_back
pop_back-append [] x = refl
pop_back-append (y ∷ xs) x = rw (pop_back-append xs x, pop_back)

module _ {u : Env} where
  -- The messages of so many successful calls of `try_get_message`, with the mailbox and the state that they leave.
  abbrev pub get_messages :
      ℕ → ActiveMailbox u → World u → Option (List (Message u) × ActiveMailbox u × World u)
  get_messages zero b w = some ([], b, w)
  get_messages (suc n) b w =
      let (r, b', w') = try_get_message b w in
      let rest = get_messages n b' w' in
      elim r [ err e ↦ none | ok m ↦ Option.map (λ t. (m ∷ t.0, t.1, t.2)) rest ]

  try_get_message-last :
      (b : ActiveMailbox u) (xs : List (Message u)) (x : Message u) (w : World u)
      → try_get_message (record b { message_list = xs ++ x ∷ [] }) w
        ≡ (ok x, record b { message_list = xs }, w)
  unfolding try_get_message
  try_get_message-last b xs x w = ground (arith, pop_back-append xs x)

  -- Stashed messages come back newest first: successive calls of `try_get_message` return them in
  -- the reverse of the order in which they were stashed, before they look at the queue.
  pub get_messages-reverse :
      (xs : List (Message u)) (b : ActiveMailbox u) (w : World u)
      → get_messages (length xs) (record b { message_list = reverse xs }) w
        ≡ some (xs, record b { message_list = [] }, w)
  get_messages-reverse [] b w = refl
  get_messages-reverse (x ∷ xs) b w =
      let b' : ActiveMailbox u = record b { message_list = reverse xs } in
      rw (reverse-cons x xs)
        (ground (arith, try_get_message-last b' (reverse xs) x w, get_messages-reverse xs b w))

  -- `generate_request_id`, so many times.
  abbrev pub generate_times : ℕ → ActiveMailbox u → ActiveMailbox u
  generate_times zero b = b
  generate_times (suc n) b = (generate_request_id (generate_times n b)).1

  last_request_id-generate_times :
      (n : ℕ) (b : ActiveMailbox u)
      → b.last_request_id < u32_mod
      → (generate_times n b).last_request_id ≡ (b.last_request_id + n) % u32_mod
  unfolding generate_request_id
  last_request_id-generate_times zero b h = omega arith
  last_request_id-generate_times (suc n) b h = omega (arith, last_request_id-generate_times n b h)

  -- A mailbox gives different ids to any two requests of which the second is made fewer than 2^32
  -- requests after the first, also where the counter wraps.
  pub generate_request_id-distinct :
      (b : ActiveMailbox u) (k : ℕ)
      → b.last_request_id < u32_mod
      → k + 1 < u32_mod
      → (generate_request_id (generate_times (suc k) b)).0 ≢ (generate_request_id b).0
  unfolding generate_request_id
  generate_request_id-distinct b k h l = omega (arith, last_request_id-generate_times (suc k) b h)
