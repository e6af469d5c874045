-- ===== src/Rtds/Client.antt =====
-- internal/rtds/client.go: Client, through which the reconciler pushes the values of a profile.
use shedpilot.Common.{
  String, ap, ◌≡◌, refl, Bool, false, Option, none, some, List, [], ◌∷◌, ℕ, Bool-cases, inl, inr,
  ◌==◌, if◌then◌else◌, ◌&&◌,
}
use shedpilot.Common.Dict.{Dict, insert}
use shedpilot.Common.Float.{Float}
use shedpilot.Rtds.Server.{World, push_layer}
use shedpilot.Rtds.Server.Delivery.{
  held, is_registered, is_open, held-push_layer, errors-push_layer, broken_nodes,
}

pub record LayerEntry : Type 0 where
  pub namespace : String
  pub selector : Dict String

-- has_server: the server pointer is not nil.
pub record Client : Type 0 where
  pub has_server : Bool
  pub enabled : Bool
  pub registry : Dict LayerEntry

abbrev pub new_client : Bool → Client
new_client has_server = record { has_server = has_server; enabled = has_server; registry = [] }

abbrev pub new_noop_client : Client
new_noop_client = record { has_server = false; enabled = false; registry = [] }

abbrev pub connected : Client → Bool
connected c = c.enabled && c.has_server

unfoldable pub register_layer : String → String → Dict String → Client → Client
register_layer layer namespace selector c = record c {
  registry = insert layer (record { namespace = namespace; selector = selector }) c.registry;
}

-- Close and Connect do nothing, and nothing is ever pending.
abbrev pub pending_count : Client → ℕ
pending_count c = 0

-- A value of the map that a renderer hands over.
pub data RuntimeValue (F : Type 0) : Type 0 where
  flag : Bool → RuntimeValue F
  number : F → RuntimeValue F

pub data PushError : Type 0 where
  not_available : PushError
  push_failed : List String → PushError

abbrev pub error_of : List String → Option PushError
error_of [] = none
error_of (node ∷ nodes) = some (push_failed (node ∷ nodes))

module _ {F : Type 0} ⦃fl : Float F⦄ where
  -- fmt.Sprintf("%v", v)
  abbrev pub print_value : RuntimeValue F → String
  print_value (flag b) = if b then "true" else "false"
  print_value (number x) = fl.show x

  abbrev pub print_values : Dict (RuntimeValue F) → Dict String
  print_values [] = []
  print_values (entry ∷ values) = (entry.0, print_value entry.1) ∷ print_values values

  unfoldable pub push : Client → String → Dict (RuntimeValue F) → World → World × Option PushError
  push c layer values w =
      let (w', errs) = push_layer fl.decimal layer (print_values values) w in
      if connected c then (w', error_of errs) else (w, some not_available)

  -- A push by a connected client puts the printed values at every registered open stream, whatever
  -- fails elsewhere; a push by a client without a server reaches no sidecar.
  pub held-push :
      (c : Client) (layer other : String) (values : Dict (RuntimeValue F)) (w : World) (conn : ℕ)
      → held (push c layer values w).0 conn other ≡ (
          if (connected c && (is_registered conn w.server.streams && is_open (w.link conn)))
            && (layer == other)
          then some (print_values values)
          else held w conn other)
  unfolding push
  held-push c layer other values w conn = elim (Bool-cases (connected c)) [
    | inl e ↦ rw e (held-push_layer fl.decimal layer other (print_values values) w conn)
    | inr e ↦ rw e refl
  ]

  -- What a push returns: the lack of a server, else the nodes of the streams on which a send fails,
  -- else no error.
  pub error-push :
      (c : Client) (layer : String) (values : Dict (RuntimeValue F)) (w : World)
      → (push c layer values w).1 ≡ (
          if connected c
          then error_of (broken_nodes w.link w.server.streams)
          else some not_available)
  unfolding push
  error-push c layer values w = elim (Bool-cases (connected c)) [
    | inl e ↦ rw e (ap error_of (errors-push_layer fl.decimal layer (print_values values) w))
    | inr e ↦ rw e refl
  ]
