-- ===== src/System/Watched.antt =====
-- The reconciler (internal/controller) with the pollers that it starts (internal/signal/poller.go): what
-- waits in a poller's channel is what the next reconcile of its policy takes. Ticks and reconciles are
-- whole steps here; the answers of patches, which the client decodes into the policy, are left out.
pub mod Grows
pub mod Fed
pub mod Judged
use shedpilot.Common.{
  String, Bool, true, false, not, Option, none, some, List, [], ◌∷◌, ℕ, ◌≡◌, ◌&&◌, nat_eq, ltb,
  if◌then◌else◌,
}
use shedpilot.Common.Dict.{Dict, lookup, is_some}
use shedpilot.Common.Float.{Float}
use shedpilot.Api.{AdaptivePolicy}
use shedpilot.Trigger.Types.{Signals}
use shedpilot.Poller.Channel.{receive}
use shedpilot.Poller.Run.{Poller, new_poller, after_scrape}
use shedpilot.Renderer.Detect.{Cluster, detect_and_build}
use shedpilot.Renderer.Result.{Resource}
use shedpilot.Rtds.Client.{Client}
use shedpilot.Rtds.Server.{World}
use shedpilot.Controller.Pollers.{Pollers, Made}
use shedpilot.Controller.Validate.{validate_policy}
use shedpilot.Controller.Manager.{
  Manager, Env, Fetched, found, gone, unreachable, new_manager, current,
}
use shedpilot.Controller.Reconcile.{reconcile, switching}

-- The pollers by their numbers; those that have not been started mean nothing.
pub record Watch (F : Type 0) : Type 0 where
  pub manager : Manager F
  pub feeds : ℕ → Poller F

-- Whether a reconcile gets to its poller.
abbrev pub gets_there : Cluster → Fetched → Bool
gets_there cluster (found policy) =
    not (is_some (validate_policy policy)) && is_some (detect_and_build cluster policy)
gets_there cluster gone = false
gets_there cluster unreachable = false

module _ {F : Type 0} where
  abbrev pub made_of : Option Made → Poller F → Poller F
  made_of none p = p
  made_of (some x) p = new_poller x.policy x.config

  -- The pollers that a reconcile has started are new, the others go on.
  abbrev pub feeds_after : Pollers → Pollers → (ℕ → Poller F) → ℕ → Poller F
  feeds_after before after feeds id =
      if ltb id before.next then feeds id else made_of (after.made id) (feeds id)

  unfoldable pub waits_at : Option ℕ → (ℕ → Poller F) → Option (Signals F)
  waits_at none feeds = none
  waits_at (some id) feeds = (feeds id).out

  unfoldable pub taken_at : Option ℕ → (ℕ → Poller F) → ℕ → Poller F
  taken_at none feeds id = feeds id
  taken_at (some taken) feeds id =
      if nat_eq id taken then record (feeds id) { out = (receive (feeds id).out).0 } else feeds id

  -- The poller that a reconcile has started has its policy by a pointer: it sees the one that is read
  -- again.
  unfoldable pub overwritten : Fetched → Pollers → (ℕ → Poller F) → ℕ → Poller F
  overwritten (found policy) before feeds id =
      if ltb id before.next then feeds id else record (feeds id) { policy = policy }
  overwritten gone before feeds id = feeds id
  overwritten unreachable before feeds id = feeds id

-- Nobody changes the triggers between the two reads of a policy in a reconcile.
abbrev pub Steady : {F : Type 0} → Env F → Type 0
Steady env =
    (read again : AdaptivePolicy)
    → env.fetched ≡ found read
    → env.refetched ≡ found again
    → again.spec.triggers ≡ read.spec.triggers

module _ {F : Type 0} ⦃fl : Float F⦄ where
  -- What a reconcile has in its policy at the end.
  abbrev pub reread : Env F → String → Manager F → Fetched → Fetched
  reread env key m (found read) = current (switching env key read m).switched env.refetched read
  reread env key m gone = gone
  reread env key m unreachable = unreachable

  -- The pollers when the reconcile has ensured its own.
  abbrev pub ensured : Env F → String → Watch F → ℕ → Poller F
  ensured env key s =
      feeds_after s.manager.pollers (reconcile env key s.manager).manager.pollers s.feeds

  -- The signal that waits for it.
  unfoldable pub offered : Env F → String → Watch F → Option (Signals F)
  unfolding waits_at
  offered env key s =
      waits_at (lookup key (reconcile env key s.manager).manager.pollers.pollers)
        (ensured env key s)

  unfoldable pub reconcile_watched : Env F → String → Watch F → Watch F
  unfolding taken_at overwritten
  reconcile_watched env key s =
      let m = (reconcile env key s.manager).manager in
      record {
        manager = m;
        feeds =
            if gets_there env.cluster env.fetched
            then overwritten (reread env key s.manager env.fetched) s.manager.pollers
                (taken_at (lookup key m.pollers.pollers) (ensured env key s))
            else ensured env key s;
      }

  -- A tick of a poller.
  unfoldable pub tick_watched : ℕ → Option (Signals F) → Watch F → Watch F
  unfolding after_scrape
  tick_watched id scrape s = record s {
    feeds = λ i. if nat_eq i id then after_scrape false false scrape (s.feeds i) else s.feeds i;
  }

  -- The states, with the reconciles that led there, the newest first.
  module _ (client : Option Client) (world : World) (objects : Dict (Resource F)) where
    pub data Watched : List (Env F × String) → Watch F → Type 0 where
      begun :
          (feeds : ℕ → Poller F)
          → Watched [] (record { manager = new_manager client world objects; feeds = feeds })
      ticked :
          (runs : List (Env F × String)) (id : ℕ) (scrape : Option (Signals F)) (s : Watch F)
          → Watched runs s
          → s.manager.pollers.runs id ≡ true
          → Watched runs (tick_watched id scrape s)
      reconciled :
          (runs : List (Env F × String)) (env : Env F) (key : String) (s : Watch F)
          → Watched runs s
          → env.polled ≡ offered env key s
          → Steady env
          → Watched ((env, key) ∷ runs) (reconcile_watched env key s)
