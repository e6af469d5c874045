-- ===== src/System/Persists.antt =====
-- What a switch leads to, also for the sidecars that connect after it.
use shedpilot.Common.{String, ap, ◌∙◌, ◌≡◌, refl, true, false, Option, some, ℕ, ℤ}
use shedpilot.Common.Dict.{Dict, lookup}
use shedpilot.Common.Float.{Float}
use shedpilot.Api.{AdaptivePolicy}
use shedpilot.Rtds.Server.{Server, World, open_link, connect, disconnect, register}
use shedpilot.Rtds.Server.Delivery.{held, or_else, server-push_to_stream}
use shedpilot.Rtds.Client.{Client, RuntimeValue, connected, print_values}
use shedpilot.Renderer.Detect.{Backend}
use shedpilot.Controller.Deliver.{render_with, rtds_supported}
use shedpilot.Controller.Deliver.Pushes.{printed}
use shedpilot.Controller.Manager.{Manager, Env, Done, found}
use shedpilot.Controller.Reconcile.{reconcile, finish, forgotten, switching}
use shedpilot.Controller.Reconcile.Acts.{Acts}
use shedpilot.Controller.Reconcile.Cases.{act-cases, reconcile-cases}
use shedpilot.Controller.Reconcile.Switch.{world-delivered}
use shedpilot.Controller.Reconcile.Delivers.{current-reconcile}
use shedpilot.System.{Reach, later, Step, reconciled, joined, left, failed}
use shedpilot.System.InSync.{Reach-InSync}

current-connect :
    (decimal : ℤ → String) (node : String) (conn : ℕ) (w : World)
    → (connect decimal node conn w).server.current ≡ w.server.current
unfolding connect register
current-connect decimal node conn w =
    ap (λ (x : Server). x.current)
      ((server-push_to_stream decimal conn w.server.current (register node conn w).0).0)

module _ {F : Type 0} ⦃fl : Float F⦄ where
  -- The reconcile switches no profile.
  abbrev pub Unswitched : Env F → String → Manager F → Type 0
  Unswitched env key m =
      (policy : AdaptivePolicy)
      → env.fetched ≡ found policy
      → (switching env key policy m).switched ≡ false

  -- A reconcile that does not switch sends nothing to a sidecar.
  world-Unswitched :
      (env : Env F) (key : String) (m : Manager F)
      → Unswitched env key m
      → (reconcile env key m).manager.world ≡ m.world
  unfolding finish forgotten
  world-Unswitched env key m stays =
      let Same : Done F → Type 0 = λ done. done.manager.world ≡ m.world in
      reconcile-cases Same env key m
        (λ policy b read accepted meshed.
          act-cases Same env key b policy m
            (λ p objects.
              world-delivered (switching env key policy m).switched b p
                (render_with b p).rtds_layers m.rtds_client m.world (rw (stays policy read) refl))
            (λ objects after failed status. refl))
        refl (λ after failed status. refl)

  -- A step in which no reconcile switches a profile.
  abbrev pub Calm : {m n : Manager F} → Step m n → Type 0
  Calm (reconciled env key m) = Unswitched env key m
  Calm (joined node conn m is_on) = Unit
  Calm (left node m) = Unit
  Calm (failed link m fewer) = Unit

  pub data Calmly (m : Manager F) : Manager F → Type 0 where
    at_once : Calmly m m
    after_step : {n o : Manager F} → Calmly m n → (s : Step n o) → Calm s → Calmly m o

  current-Calm :
      {m n : Manager F} (s : Step m n) → Calm s → n.world.server.current ≡ m.world.server.current
  unfolding disconnect
  current-Calm (reconciled env key m) calm =
      ap (λ (w : World). w.server.current) (world-Unswitched env key m calm)
  current-Calm (joined node conn m is_on) calm = current-connect fl.decimal node conn m.world
  current-Calm (left node m) calm = refl
  current-Calm (failed link m fewer) calm = refl

  pub current-Calmly :
      {m n : Manager F} → Calmly m n → n.world.server.current ≡ m.world.server.current
  current-Calmly at_once = refl
  current-Calmly (after_step c s calm) = current-Calm s calm ∙ current-Calmly c

  Reach-Calmly : {m n : Manager F} → Reach m → Calmly m n → Reach n
  Reach-Calmly r at_once = r
  Reach-Calmly r (after_step c s calm) = later (Reach-Calmly r c) s

  printed-lookup :
      (o : Option (Dict (RuntimeValue F))) (values : Dict (RuntimeValue F))
      (before : Option (Dict String))
      → o ≡ some values
      → or_else (printed o) before ≡ some (print_values values)
  printed-lookup o values before e = rw e refl

  -- In a run of whole reconciles and of connections that come and go: after a reconcile of a
  -- valid policy, in a mesh that is detected, that switches the profile and reads the policy
  -- again without a failure, with a connected client and a backend with RTDS, and for as long as
  -- no reconcile switches a profile, the sidecar of every registered stream that is open, also
  -- of one that connects after the switch, holds the printed values of each layer of the policy
  -- as it was read again.
  pub switch-Persists :
      {n : Manager F} (env : Env F) (key : String) (m : Manager F) (b : Backend)
      (read policy : AdaptivePolicy) (c : Client) (node : String) (conn : ℕ) (layer : String)
      (values : Dict (RuntimeValue F))
      → Reach m
      → Acts env key m b read policy
      → (switching env key read m).switched ≡ true
      → m.rtds_client ≡ some c
      → connected c ≡ true
      → rtds_supported b ≡ true
      → Calmly (reconcile env key m).manager n
      → lookup layer (render_with b policy).rtds_layers ≡ some values
      → lookup node n.world.server.streams ≡ some conn
      → n.world.link conn ≡ open_link
      → held n.world conn layer ≡ some (print_values values)
  switch-Persists env key m b read policy c node conn layer values r h moved has on able calm is_in
        seen is_on =
      let now =
        ap (lookup layer) (current-Calmly calm)
        ∙ current-reconcile env key m b read policy h moved c has on able layer
        ∙ printed-lookup _ values (lookup layer m.world.server.current) is_in in
      Reach-InSync (Reach-Calmly (later r (reconciled env key m)) calm) node conn layer
        (print_values values) seen is_on now
