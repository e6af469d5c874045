-- ===== src/Controller/Deliver/Pushes.antt =====
-- What the sidecars hold after the layers of a policy were pushed, in whatever order a range visits them.
use shedpilot.Common.{
  String, ap, sym, subst, ◌∙◌, ◌≡◌, refl, Bool, true, false, not, Option, none, some, [], ◌∷◌, ℕ,
  arith, eq_iff, Bool-cases, inl, inr, ◌==◌, ◌&&◌, ◌||◌, if◌then◌else◌, is_nonempty, List,
}
use shedpilot.Common.Dict.{Dict, lookup, lookup-insert}
use shedpilot.Common.Float.{Float}
use shedpilot.Rtds.Server.{World, push_layer, Values}
use shedpilot.Rtds.Server.Keys.{UniqueKeys}
use shedpilot.Rtds.Server.Delivery.{held, is_registered, is_open, or_else, merged, broken_nodes}
use shedpilot.Rtds.Client.{
  Client, RuntimeValue, connected, print_values, push, held-push, error-push, error_of,
}
use shedpilot.Controller.Deliver.{push_layers, no_error}

-- A stream to which a send arrives.
abbrev pub reached : World → ℕ → Bool
reached w conn = is_registered conn w.server.streams && is_open (w.link conn)

error-free :
    (nodes : List String) (more : Bool)
    → (no_error (error_of nodes) && (not more || not (is_nonempty nodes))) ≡ not (is_nonempty nodes)
error-free [] more = ground arith
error-free (node ∷ nodes) more = refl

module _ {F : Type 0} ⦃fl : Float F⦄ where
  abbrev pub printed : Option (Dict (RuntimeValue F)) → Option Values
  printed none = none
  printed (some values) = some (print_values values)

  printed-if :
      (b : Bool) (values : Dict (RuntimeValue F)) (o : Option (Dict (RuntimeValue F)))
      → printed (if b then some values else o)
        ≡ (if b then some (print_values values) else printed o)
  printed-if true values o = refl
  printed-if false values o = refl

  absent :
      (entry : String × Dict (RuntimeValue F)) (layers : Dict (Dict (RuntimeValue F)))
      (layer : String)
      → UniqueKeys (entry ∷ layers)
      → (entry.0 == layer) ≡ true
      → printed (lookup layer layers) ≡ none
  absent entry layers layer u same =
      ap printed (subst (λ k. lookup k layers ≡ none) ((eq_iff entry.0 layer).0 same) u.0)

  -- What a push leaves of the server.
  streams-push :
      (c : Client) (layer : String) (values : Dict (RuntimeValue F)) (w : World)
      → ((push c layer values w).0.server.streams ≡ w.server.streams)
        × ((push c layer values w).0.link ≡ w.link)
  unfolding push push_layer
  streams-push c layer values w = elim (Bool-cases (connected c)) [
    | inl e ↦ rw e (refl, refl)
    | inr e ↦ rw e (refl, refl)
  ]

  pub streams-push_layers :
      (c : Client) (layers : Dict (Dict (RuntimeValue F))) (w : World)
      → ((push_layers c layers w).0.server.streams ≡ w.server.streams)
        × ((push_layers c layers w).0.link ≡ w.link)
  unfolding push_layers
  streams-push_layers c [] w = (refl, refl)
  streams-push_layers c (entry ∷ layers) w =
      let first = streams-push c entry.0 entry.1 w in
      let rec = streams-push_layers c layers (push c entry.0 entry.1 w).0 in
      (rec.0 ∙ first.0, rec.1 ∙ first.1)

  current-push :
      (c : Client) (layer other : String) (values : Dict (RuntimeValue F)) (w : World)
      → connected c ≡ true
      → lookup other (push c layer values w).0.server.current
        ≡ (if layer == other then some (print_values values) else lookup other w.server.current)
  unfolding push push_layer
  current-push c layer other values w on =
      rw on (lookup-insert layer other (print_values values) w.server.current)

  held-push_on :
      (c : Client) (layer other : String) (values : Dict (RuntimeValue F)) (w : World) (conn : ℕ)
      → connected c ≡ true
      → held (push c layer values w).0 conn other ≡ (
          if reached w conn && (layer == other)
          then some (print_values values)
          else held w conn other)
  held-push_on c layer other values w conn on = held-push c layer other values w conn ∙ rw on refl

  error-push_on :
      (c : Client) (layer : String) (values : Dict (RuntimeValue F)) (w : World)
      → connected c ≡ true
      → (push c layer values w).1 ≡ error_of (broken_nodes w.link w.server.streams)
  error-push_on c layer values w on = error-push c layer values w ∙ rw on refl

  module _ (c : Client) (on : connected c ≡ true) where
    -- The sidecars that are reached hold the pushed layers, and what they held of other layers.
    pub held-push_layers :
        (layers : Dict (Dict (RuntimeValue F))) (w : World) (conn : ℕ) (layer : String)
        → UniqueKeys layers
        → held (push_layers c layers w).0 conn layer ≡ (
            if reached w conn
            then or_else (printed (lookup layer layers)) (held w conn layer)
            else held w conn layer)
    unfolding push_layers lookup
    held-push_layers [] w conn layer u = ground arith
    held-push_layers (entry ∷ layers) w conn layer u =
        let w' = (push c entry.0 entry.1 w).0 in
        let same = streams-push c entry.0 entry.1 w in
        let first = held-push_on c entry.0 layer entry.1 w conn on in
        let there : reached w' conn ≡ reached w conn = rw (same.0, same.1) refl in
        held-push_layers layers w' conn layer u.1
        ∙ rw (there, printed-if (entry.0 == layer) entry.1 (lookup layer layers))
            (merged (reached w conn) (entry.0 == layer) (print_values entry.1)
              (printed (lookup layer layers)) (held w conn layer) (held w' conn layer) first
              (absent entry layers layer u))

    pub current-push_layers :
        (layers : Dict (Dict (RuntimeValue F))) (w : World) (layer : String)
        → UniqueKeys layers
        → lookup layer (push_layers c layers w).0.server.current
          ≡ or_else (printed (lookup layer layers)) (lookup layer w.server.current)
    unfolding push_layers lookup
    current-push_layers [] w layer u = refl
    current-push_layers (entry ∷ layers) w layer u =
        let w' = (push c entry.0 entry.1 w).0 in
        let first = current-push c entry.0 layer entry.1 w on in
        current-push_layers layers w' layer u.1
        ∙ rw (printed-if (entry.0 == layer) entry.1 (lookup layer layers)) (
            merged true (entry.0 == layer) (print_values entry.1) (printed (lookup layer layers))
              (lookup layer w.server.current) (lookup layer w'.server.current) first
              (absent entry layers layer u))

    pub arrived-push_layers :
        (layers : Dict (Dict (RuntimeValue F))) (w : World)
        → (push_layers c layers w).1
          ≡ (not (is_nonempty layers) || not (is_nonempty (broken_nodes w.link w.server.streams)))
    unfolding push_layers
    arrived-push_layers [] w = refl
    arrived-push_layers (entry ∷ layers) w =
        let w' = (push c entry.0 entry.1 w).0 in
        let same = streams-push c entry.0 entry.1 w in
        let first = error-push_on c entry.0 entry.1 w on in
        rw (arrived-push_layers layers w', same.0, same.1, first)
          (error-free (broken_nodes w.link w.server.streams) (is_nonempty layers))

  -- A client that is not connected pushes nothing.
  off-push_layers :
      (c : Client) (layers : Dict (Dict (RuntimeValue F))) (w : World)
      → connected c ≡ false
      → ((push_layers c layers w).0 ≡ w) × ((push_layers c layers w).1 ≡ not (is_nonempty layers))
  unfolding push_layers push
  off-push_layers c [] w off = (refl, refl)
  off-push_layers c (entry ∷ layers) w off =
      let rec = off-push_layers c layers w off in rw off (rec.0, refl)

-- One map, in two orders of its range.
abbrev pub SameMap {ℓ} : {V : Type ℓ} → Dict V → Dict V → Type ℓ
SameMap a b = (key : String) → lookup key a ≡ lookup key b

nonempty_of_lookup {ℓ} :
    {V : Type ℓ} (key : String) (value : V) (a : Dict V)
    → lookup key a ≡ some value
    → is_nonempty a ≡ true
unfolding lookup
nonempty_of_lookup key value [] h = ground arith
nonempty_of_lookup key value (entry ∷ a) h = refl

is_nonempty-SameMap {ℓ} : {V : Type ℓ} (a b : Dict V) → SameMap a b → is_nonempty a ≡ is_nonempty b
unfolding lookup
is_nonempty-SameMap [] [] h = refl
is_nonempty-SameMap [] (entry ∷ b) h =
    nonempty_of_lookup entry.0 entry.1 [] (h entry.0 ∙ ground (arith, eq_iff entry.0 entry.0))
is_nonempty-SameMap (entry ∷ a) b h = sym (
    nonempty_of_lookup entry.0 entry.1 b (sym (h entry.0) ∙ ground (arith, eq_iff entry.0 entry.0)))

-- What a push of layers leaves, for every connection and layer, and whether all arrived.
pub record SameDelivery (x y : World × Bool) : Type 0 where
  pub held_alike : (conn : ℕ) (layer : String) → held x.0 conn layer ≡ held y.0 conn layer
  pub current_alike :
      (layer : String) → lookup layer x.0.server.current ≡ lookup layer y.0.server.current
  pub arrived_alike : x.1 ≡ y.1

module _ {F : Type 0} ⦃fl : Float F⦄ where
  -- The order in which a range visits the layers does not matter: pushed in two orders of the
  -- same map, they leave the sidecars with the same values and the server with the same current
  -- ones, and the same is returned.
  pub push_layers-SameMap :
      (c : Client) (layers other : Dict (Dict (RuntimeValue F))) (w : World)
      → UniqueKeys layers
      → UniqueKeys other
      → SameMap layers other
      → SameDelivery (push_layers c layers w) (push_layers c other w)
  push_layers-SameMap c layers other w u v same = elim (Bool-cases (connected c)) [
    | inl on ↦ record {
      held_alike = λ conn layer.
          held-push_layers c on layers w conn layer u
          ∙ rw (same layer) (sym (held-push_layers c on other w conn layer v));
      current_alike = λ layer.
          current-push_layers c on layers w layer u
          ∙ rw (same layer) (sym (current-push_layers c on other w layer v));
      arrived_alike =
          arrived-push_layers c on layers w
          ∙ rw (is_nonempty-SameMap layers other same) (sym (arrived-push_layers c on other w));
    }
    | inr off ↦
        let x = off-push_layers c layers w off in
        let y = off-push_layers c other w off in
        record {
          held_alike = λ conn layer. ap (λ (z : World). held z conn layer) (x.0 ∙ sym y.0);
          current_alike =
              λ layer. ap (λ (z : World). lookup layer z.server.current) (x.0 ∙ sym y.0);
          arrived_alike = x.1 ∙ rw (is_nonempty-SameMap layers other same) (sym y.1);
        }
  ]
