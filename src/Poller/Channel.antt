-- ===== src/Poller/Channel.antt =====
-- internal/signal/poller.go: sendNonBlocking on the output channel of capacity 1, with the
-- controller's receive of internal/controller/adaptivepolicy_controller.go between its steps.
use shedpilot.Common.{◌≡◌, refl, Bool, true, false, Option, none, some, List, [], ◌∷◌, arith}

-- What the two goroutines do to the channel.
pub data Op {ℓ} (A : Type ℓ) : Type ℓ where
  send : Bool → Bool → A → Op A
  take : Op A

module _ {ℓ} {A : Type ℓ} where
  -- The controller's `select { case s = <-out: default: }`: the channel, and what was received.
  unfoldable pub receive : Option A → Option A × Option A
  receive none = (none, none)
  receive (some a) = (none, some a)

  receive_empties : (out : Option A) → (receive out).0 ≡ none
  unfolding receive
  receive_empties none = refl
  receive_empties (some a) = refl

  -- Whether the controller runs its receive at this moment.
  interrupt : Bool → Option A → Option A
  unfolding receive
  interrupt false out = out
  interrupt true out = (receive out).0

  -- `select { case out <- sig: default: }`: whether the send went through.
  try_send : A → Option A → Option A × Bool
  try_send sig none = (some sig, true)
  try_send sig (some old) = (some old, false)

  -- `select { case <-out: default: }`
  drain : Option A → Option A
  drain out = none

  -- After a first attempt that failed: drain, and send again.
  retry : Bool → Bool → A → Option A → Option A
  unfolding interrupt try_send drain
  retry early late sig out = (try_send sig (interrupt late (drain (interrupt early out)))).0

  sent_or_retry : Bool → Bool → A → Option A × Bool → Option A
  sent_or_retry early late sig (out, true) = out
  sent_or_retry early late sig (out, false) = retry early late sig out

  -- The three selects; the controller may receive before the second and before the third.
  unfoldable pub send_non_blocking : Bool → Bool → A → Option A → Option A
  unfolding try_send retry sent_or_retry
  send_non_blocking early late sig out = sent_or_retry early late sig (try_send sig out)

  pub send_lem :
      (early late : Bool) (sig : A) (out : Option A)
      → send_non_blocking early late sig out ≡ some sig
  unfolding send_non_blocking
  send_lem early late sig none = refl
  send_lem early late sig (some old) = ground arith

  -- The channel after some operations, the newest first.
  abbrev pub channel_after : List (Op A) → Option A
  channel_after [] = none
  channel_after (send early late sig ∷ older) =
      send_non_blocking early late sig (channel_after older)
  channel_after (take ∷ older) = (receive (channel_after older)).0

  -- The newest signal sent since the last receive.
  abbrev pub newest : List (Op A) → Option A
  newest [] = none
  newest (send early late sig ∷ older) = some sig
  newest (take ∷ older) = none

  -- Whatever was sent and received before, and wherever receives fall between the steps of a send: the
  -- channel holds the newest signal sent since the last receive, and nothing older.
  pub channel_after_lem : (ops : List (Op A)) → channel_after ops ≡ newest ops
  channel_after_lem [] = refl
  channel_after_lem (send early late sig ∷ older) = send_lem early late sig (channel_after older)
  channel_after_lem (take ∷ older) = receive_empties (channel_after older)
