-- ===== src/Tests/System.antt =====
-- The theorems on runs of the system, and on the switches in them.
use mathlib.Core.Bool.{false≢true}
use shedpilot.Common.{
  String, ap, ◌∙◌, not, ◌||◌, ◌==◌, is_nonempty, ◌≡◌, refl, true, false, Option, none, some, List,
  [], ◌∷◌, inl, inr, arith, eq_iff, ℤ, pos,
}
use shedpilot.Common.Dict.{Dict, lookup, insert, lookup-insert}
use shedpilot.Rtds.Server.{Server, connect, disconnect, register, push_to_stream}
use shedpilot.Rtds.Server.Delivery.{held, or_else, server-push_to_stream}
use shedpilot.Api.{AdaptivePolicy, has_streaming_protection, has_adaptive_concurrency}
use shedpilot.Rtds.Client.{RuntimeValue, flag, new_client, print_values}
use shedpilot.Controller.Validate.{with_profile}
use shedpilot.Controller.Deliver.{push_layers, render_with}
use shedpilot.Controller.Deliver.Pushes.{SameDelivery, push_layers-SameMap, printed}
use shedpilot.Controller.Manager.{Manager, Env, new_manager, found, gone, unreachable}
use shedpilot.Controller.Reconcile.{reconcile, switching}
use shedpilot.Controller.Reconcile.Acts.{Acts}
use shedpilot.Controller.Reconcile.Delivers.{
  says_rtds, reconcile-Delivered, streams-reconcile, current-reconcile,
}
use shedpilot.Renderer.Istio.Render as Istio
use shedpilot.Renderer.Istio.Configs.{admission_layer}
use shedpilot.System.{Reach, started, later, joined, left, reconciled}
use shedpilot.System.InSync.{Reach-InSync}
use shedpilot.System.Lost.{Dropped, switch-Lost}
use shedpilot.System.Persists.{at_once, after_step, switch-Persists}
use shedpilot.Controller.Pollers.Current.{Runs}
use shedpilot.Controller.Reconcile.Specs.{reconcile-Runs}
use shedpilot.Controller.Reconcile.Runs.{after_reconciles}
use shedpilot.Controller.Reconcile.Sheds.{Urges, Switched, reconciles-Switched}
use shedpilot.Renderer.Detect.{istio}
use shedpilot.Tests.Thousandths.{thousandths}
use shedpilot.Tests.Trigger.{spec, degrade, unique}
use shedpilot.Tests.Rtds.{at_start, links}
use shedpilot.Tests.Reconcile.{policy, manager, once_poor, firing, steps}

abbrev key : String
key = "production/payments"

-- Two reconciles of the policy, and one of another between them.
abbrev three : List (Env ℤ × String)
three = (firing true, key) ∷ (firing true, "production/other") ∷ (firing true, key) ∷ []

poor_twice : (m : Manager ℤ) → Urges degrade spec.triggers once_poor (firing true) m
unfolding steps
poor_twice m = record {
  policy = policy;
  evaluates = record { fetched = refl; accepted = refl; backend = istio; meshed = refl };
  free = refl;
  patched = refl;
  over = (refl, refl, unique);
  presses = (refl, refl);
}

reconciles-Switched_example : Switched key degrade spec.triggers manager three
unfolding steps
reconciles-Switched_example =
    reconciles-Switched key degrade spec.triggers manager (inl refl) 1 three refl (omega arith)
      (omega arith)
      (λ mine. poor_twice _, (λ other. absurd (false≢true other), (λ mine. poor_twice manager, tt)))
      (omega arith)

abbrev two_layers : Dict (Dict (RuntimeValue ℤ))
two_layers = ("a", ("enabled", flag true) ∷ []) ∷ ("b", ("enabled", flag false) ∷ []) ∷ []

abbrev turned : Dict (Dict (RuntimeValue ℤ))
turned = ("b", ("enabled", flag false) ∷ []) ∷ ("a", ("enabled", flag true) ∷ []) ∷ []

SameMap-swapped :
    (a b : String × Dict (RuntimeValue ℤ)) (key : String)
    → (a.0 == b.0) ≡ false
    → lookup key (a ∷ b ∷ []) ≡ lookup key (b ∷ a ∷ [])
unfolding lookup
SameMap-swapped a b key apart = ground (arith, eq_iff a.0 key, eq_iff b.0 key, eq_iff a.0 b.0)

push_layers-SameMap_example :
    SameDelivery
      (push_layers (new_client true) two_layers at_start)
      (push_layers (new_client true) turned at_start)
unfolding lookup
push_layers-SameMap_example =
    push_layers-SameMap (new_client true) two_layers turned at_start (refl, (refl, tt))
      (refl, (refl, tt)) (λ key. SameMap-swapped _ _ key refl)

-- One poor sample fires the trigger of this policy.
abbrev hasty : AdaptivePolicy
hasty = record policy {
  spec = record policy.spec {
    triggers =
        record degrade {
          when = record degrade.when {
            success_rate =
                some (record { below = "0.90"; above = ""; consecutive_samples = pos 1 });
          };
        }
        ∷ [];
  };
}

abbrev target : AdaptivePolicy
target = with_profile "degraded" hasty

abbrev hasty_env : Env ℤ
hasty_env = record (firing true) { fetched = found hasty; refetched = found target }

-- A new reconciler with a client, to whose server a sidecar has connected.
abbrev begun : Manager ℤ
begun = new_manager (some (new_client true)) at_start []

abbrev joined_one : Manager ℤ
joined_one = record begun { world = connect thousandths.decimal "pod" 1 at_start }

abbrev switched_one : Manager ℤ
switched_one = (reconcile hasty_env key joined_one).manager

hasty-Acts : Acts hasty_env key joined_one istio hasty target
unfolding steps new_manager
hasty-Acts = record { fetched = refl; accepted = refl; backend = refl; again = refl; taken = refl }

hasty-switches : (switching hasty_env key hasty joined_one).switched ≡ true
unfolding steps new_manager
hasty-switches = refl

abbrev layer : String
layer = "shedpilot-payments-admission-control"

abbrev printed_layer : Option (Dict String)
printed_layer = printed (some (admission_layer {F = ℤ} target))

layer_rendered :
    lookup layer (render_with {F = ℤ} istio target).rtds_layers ≡ some (admission_layer target)
unfolding steps render_with Istio.render Istio.admission Istio.concurrency Istio.stats_flush
    Istio.skip_paths Istio.streaming Istio.emit has_streaming_protection has_adaptive_concurrency
    insert
layer_rendered = refl

Reach-joined : Reach joined_one
unfolding new_manager
Reach-joined =
    later (started (some (new_client true)) links (λ conn. []) []) (joined "pod" 1 begun refl)

reconcile-Delivered_example :
    (held (reconcile hasty_env key joined_one).manager.world 1 layer
      ≡ or_else (printed (lookup layer (render_with {F = ℤ} istio target).rtds_layers)) none)
    × (says_rtds (reconcile hasty_env key joined_one).status
        ≡ (not (is_nonempty (render_with {F = ℤ} istio target).rtds_layers) || true))
unfolding new_manager connect register push_to_stream insert lookup
reconcile-Delivered_example =
    reconcile-Delivered hasty_env key joined_one istio hasty target hasty-Acts hasty-switches
      (new_client true) refl refl refl 1 layer

registered_still : lookup "pod" switched_one.world.server.streams ≡ some 1
unfolding new_manager connect register push_to_stream insert lookup
registered_still =
    ap (lookup "pod")
      (streams-reconcile hasty_env key joined_one istio hasty target hasty-Acts hasty-switches
        (new_client true) refl refl refl).0

links_still : switched_one.world.link ≡ links
unfolding new_manager connect register push_to_stream
links_still =
    (streams-reconcile hasty_env key joined_one istio hasty target hasty-Acts hasty-switches
      (new_client true) refl refl refl).1

current_now : lookup layer switched_one.world.server.current ≡ printed_layer
unfolding new_manager connect lookup register push_to_stream
current_now =
    current-reconcile hasty_env key joined_one istio hasty target hasty-Acts hasty-switches
      (new_client true) refl refl refl layer
    ∙ ap (λ o. or_else (printed o) none) layer_rendered

Reach-InSync_example : held switched_one.world 1 layer ≡ printed_layer
Reach-InSync_example =
    Reach-InSync (later Reach-joined (reconciled hasty_env key joined_one)) "pod" 1 layer
      (print_values (admission_layer target)) registered_still (ap (λ l. l 1) links_still)
      current_now

-- A sidecar that connects after the switch.
abbrev joined_two : Manager ℤ
joined_two = record switched_one { world = connect thousandths.decimal "late" 2 switched_one.world }

server-joined_two :
    (lookup "late" joined_two.world.server.streams ≡ some 2)
    × (joined_two.world.link ≡ switched_one.world.link)
unfolding connect register
server-joined_two =
    let w = (register "late" 2 switched_one.world).0 in
    let same = server-push_to_stream thousandths.decimal 2 switched_one.world.server.current w in
    (
      ap (λ (s : Server). lookup "late" s.streams) same.0
          ∙ lookup-insert "late" "late" 2 switched_one.world.server.streams,
      same.1,
    )

switch-Persists_example : held joined_two.world 2 layer ≡ printed_layer
unfolding new_manager
switch-Persists_example =
    switch-Persists hasty_env key joined_one istio hasty target (new_client true) "late" 2 layer
      (admission_layer target) Reach-joined hasty-Acts hasty-switches refl refl refl
      (after_step at_once (joined "late" 2 switched_one (ap (λ l. l 2) links_still)) tt)
      layer_rendered server-joined_two.0 (ap (λ l. l 2) (server-joined_two.1 ∙ links_still))

-- The same policy at a later generation, with another spec.
abbrev edited : Env ℤ
edited = record (firing true) { fetched = found (record hasty { generation = pos 7 }) }

-- The policy that is read now was read twice before, between them at another generation, which asked
-- for another spec, and after a read that found it gone.
abbrev earlier : List (Env ℤ × String)
earlier =
    (firing true, key)
    ∷ (edited, key)
    ∷ (firing true, "production/other")
    ∷ (firing true, key)
    ∷ (record (firing true) { fetched = gone }, key)
    ∷ (edited, key)
    ∷ []

reconcile-Runs_example :
    Runs key policy (reconcile (firing true) key (after_reconciles begun earlier)).manager.pollers
unfolding new_manager steps
reconcile-Runs_example =
    reconcile-Runs (some (new_client true)) at_start [] earlier (firing true) key policy istio refl
      refl refl (λ same. refl, ((λ same. ground (arith, same)), (λ same. refl, tt)))

-- A sidecar leaves after a switch whose policy could not be read again.
abbrev lost : Env ℤ
lost = record (firing true) { refetched = unreachable }

abbrev left_after : Manager ℤ
left_after =
    let m = (reconcile lost key manager).manager in record m { world = disconnect "pod" m.world }

lost-switches : (switching lost key policy manager).switched ≡ true
unfolding steps
lost-switches = refl

switch-Lost_example :
    Dropped manager (reconcile lost key manager)
    × (left_after.world.server.current ≡ manager.world.server.current)
unfolding steps
switch-Lost_example =
    switch-Lost lost key manager istio policy refl refl refl lost-switches (inr refl)
      (after_step at_once (left "pod" _) tt)
