-- ===== src/Controller/Reconcile/Delivers.antt =====
-- A reconcile that switches the profile while a client is connected.
use shedpilot.Common.{
  String, ap, ◌∙◌, ◌≡◌, refl, Bool, true, false, not, Option, none, some, ℕ, ◌||◌, if◌then◌else◌,
  is_nonempty, arith,
}
use shedpilot.Common.Dict.{lookup, Dict}
use shedpilot.Common.Float.{Float}
use shedpilot.Api.{AdaptivePolicy, AdaptivePolicyStatus}
use shedpilot.Trigger.Types.{Decision, State}
use shedpilot.Rtds.Client.{Client, connected, RuntimeValue}
use shedpilot.Rtds.Server.{World}
use shedpilot.Rtds.Server.Delivery.{held, or_else, broken_nodes}
use shedpilot.Renderer.Detect.{Backend, istio, cilium}
use shedpilot.Renderer.Layers.{UniqueLayers, render-UniqueLayers, cilium_render-UniqueLayers}
use shedpilot.Controller.Conditions.{record_decision}
use shedpilot.Controller.Deliver.{render_with, register_layers, push_layers, rtds_supported}
use shedpilot.Controller.Deliver.Pushes.{
  reached, printed, held-push_layers, current-push_layers, streams-push_layers, arrived-push_layers,
}
use shedpilot.Controller.Report.{Findings, report, refreshed, noted}
use shedpilot.Controller.Manager.{Manager, Env, Done}
use shedpilot.Controller.Reconcile.{reconcile, switching, delivered, finish, findings, collect}
use shedpilot.Controller.Reconcile.Acts.{Acts, reconcile-finish}
use shedpilot.Controller.Reconcile.Switch.{connected-register_layers}

-- Whether the status that is sent says that the sidecars were reached.
abbrev pub says_rtds : Option AdaptivePolicyStatus → Bool
says_rtds none = false
says_rtds (some status) = status.rtds_connected

rtds-noted :
    (now : ℕ) (before : String) (arrived switched : Bool) (d : Decision) (s : AdaptivePolicyStatus)
    → (noted now before arrived switched d s).rtds_connected ≡ s.rtds_connected
unfolding noted record_decision
rtds-noted now before arrived switched d s = ground arith

module _ {F : Type 0} ⦃fl : Float F⦄ where
  pub render_with-UniqueLayers :
      (b : Backend) (policy : AdaptivePolicy) → UniqueLayers (render_with {F = F} b policy)
  unfolding render_with
  render_with-UniqueLayers istio policy = (render-UniqueLayers {F = F} policy)
  render_with-UniqueLayers cilium policy = (cilium_render-UniqueLayers {F = F} policy)

  -- The push of a switch, by a connected client.
  delivered_lem :
      (b : Backend) (policy : AdaptivePolicy) (layers : Dict (Dict (RuntimeValue F))) (c : Client)
      (w : World)
      → connected c ≡ true
      → rtds_supported b ≡ true
      → (delivered true b policy layers (some c) w).1
          ≡ (push_layers (register_layers policy layers c) layers w).0
        × (delivered true b policy layers (some c) w).2
          ≡ (push_layers (register_layers policy layers c) layers w).1
  unfolding delivered
  delivered_lem b policy layers c w on able =
      let same = connected-register_layers policy layers c in rw (same, on, able) (refl, refl)

  rtds-report :
      (now : ℕ) (policy : AdaptivePolicy) (f : Findings F) (st : State)
      → (report now policy f st).1.rtds_connected ≡ f.rtds_connected
  unfolding report refreshed
  rtds-report now policy f st =
      rtds-noted now f.before f.rtds_connected f.switched f.decision (refreshed now policy f)

module _ {F : Type 0} ⦃fl : Float F⦄ (env : Env F) (key : String) (m : Manager F) (b : Backend)
    (read policy : AdaptivePolicy) (h : Acts env key m b read policy)
    (moved : (switching env key read m).switched ≡ true) (c : Client) (has : m.rtds_client ≡ some c)
    (on : connected c ≡ true) (able : rtds_supported b ≡ true) where
  abbrev layers : Dict (Dict (RuntimeValue F))
  layers = (render_with {F = F} b policy).rtds_layers

  abbrev registered : Client
  registered = register_layers policy layers c

  registered-connected : connected registered ≡ true
  registered-connected = connected-register_layers policy layers c ∙ on

  world-reconcile : (reconcile env key m).manager.world ≡ (push_layers registered layers m.world).0
  unfolding finish
  world-reconcile =
      ap (λ (done : Done F). done.manager.world) (reconcile-finish env key m b read policy h)
      ∙ rw (moved, has) ((delivered_lem b policy layers c m.world on able).0)

  rtds-reconcile :
      says_rtds (reconcile env key m).status ≡ (push_layers registered layers m.world).1
  unfolding finish findings
  rtds-reconcile =
      let sw = switching env key read m in
      let out = delivered sw.switched b policy layers m.rtds_client m.world in
      let arrived : out.2 ≡ (push_layers registered layers m.world).1 =
        rw (moved, has) ((delivered_lem b policy layers c m.world on able).1) in
      ap (λ (done : Done F). says_rtds done.status) (reconcile-finish env key m b read policy h)
      ∙ rtds-report env.now policy
          (findings read.spec.active_profile b (collect env read m.snapshots) sw policy out.2)
          sw.state
      ∙ arrived

  -- It registers and deregisters nobody.
  pub streams-reconcile :
      ((reconcile env key m).manager.world.server.streams ≡ m.world.server.streams)
      × ((reconcile env key m).manager.world.link ≡ m.world.link)
  streams-reconcile =
      let same = streams-push_layers registered layers m.world in
      (
        ap (λ (w : World). w.server.streams) world-reconcile ∙ same.0,
        ap (λ (w : World). w.link) world-reconcile ∙ same.1,
      )

  pub current-reconcile :
      (layer : String)
      → lookup layer (reconcile env key m).manager.world.server.current
        ≡ or_else (printed (lookup layer layers)) (lookup layer m.world.server.current)
  current-reconcile layer =
      ap (λ (w : World). lookup layer w.server.current) world-reconcile
      ∙ current-push_layers registered registered-connected layers m.world layer
          (render_with-UniqueLayers b policy).unique

  -- A reconcile of a valid policy, in a mesh that is detected, that switches the profile and
  -- reads the policy again without a failure, with a connected client and a backend with RTDS:
  -- the sidecar of each registered open stream holds the printed values of every layer that the
  -- policy read again renders, whatever fails at the other streams; all else that sidecars hold
  -- stays; and the status says that RTDS delivered exactly if there was no layer, or no
  -- registered stream on which a send fails.
  pub reconcile-Delivered :
      (conn : ℕ) (layer : String)
      → (held (reconcile env key m).manager.world conn layer ≡ (
          if reached m.world conn
          then or_else (printed (lookup layer layers)) (held m.world conn layer)
          else held m.world conn layer))
        × (says_rtds (reconcile env key m).status ≡ (
            not (is_nonempty layers)
            || not (is_nonempty (broken_nodes m.world.link m.world.server.streams))))
  reconcile-Delivered conn layer = (
    ap (λ (w : World). held w conn layer) world-reconcile
        ∙ held-push_layers registered registered-connected layers m.world conn layer
            (render_with-UniqueLayers b policy).unique,
    rtds-reconcile ∙ arrived-push_layers registered registered-connected layers m.world,
  )
