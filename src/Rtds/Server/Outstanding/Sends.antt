-- ===== src/Rtds/Server/Outstanding/Sends.antt =====
-- The outstanding sends of a layer to a connection: replays, responses, and what one arrival leaves.
use shedpilot.Common.{
  String, subst, ◌∙◌, ◌≡◌, refl, Bool, true, false, Option, none, some, List, [], ◌∷◌, ◌++◌, ℕ,
  arith, eq_iff, nat_eq_iff, All, Bool-cases, inl, inr, ◌==◌, nat_eq, ◌&&◌, if◌then◌else◌, sym,
  is_nonempty,
}
use shedpilot.Common.Dict.{Dict, lookup}
use shedpilot.Rtds.Server.{Values}
use shedpilot.Rtds.Server.Keys.{UniqueKeys}
use shedpilot.Rtds.Server.Delivery.{held, is_registered}
use shedpilot.Rtds.Server.Outstanding.Due.{Due, Due-alone}
use shedpilot.Rtds.Server.Outstanding.{Send, outstanding, replay, responses}

module _ (conn : ℕ) (layer : String) where
  -- Whether a send is one of the layer to the connection.
  abbrev pub is_one : Send → Bool
  is_one x = nat_eq x.conn conn && (x.layer == layer)

  pub outstanding-append :
      (xs ys : List Send)
      → outstanding conn layer (xs ++ ys) ≡ outstanding conn layer xs ++ outstanding conn layer ys
  outstanding-append [] ys = refl
  outstanding-append (x ∷ xs) ys =
      let rec = outstanding-append xs ys in
      elim (Bool-cases (is_one x)) [ inl e ↦ rw (e, rec) refl | inr e ↦ rw (e, rec) refl ]

  pub outstanding-taken :
      (pre post : List Send) (x : Send)
      → outstanding conn layer (pre ++ x ∷ post) ≡ (
          if is_one x
          then outstanding conn layer pre ++ x.values ∷ outstanding conn layer post
          else outstanding conn layer (pre ++ post))
  outstanding-taken pre post x = elim (Bool-cases (is_one x)) [
    | inl e ↦ rw (outstanding-append pre (x ∷ post), e) refl
    | inr e ↦ rw (outstanding-append pre (x ∷ post), outstanding-append pre post, e) refl
  ]

  outstanding-away :
      (xs : List Send)
      → All (λ (x : Send). nat_eq x.conn conn ≡ false) xs
      → outstanding conn layer xs ≡ []
  outstanding-away [] away = refl
  outstanding-away (x ∷ xs) away = rw away.0 (outstanding-away xs away.1)

  replay-away :
      (to : ℕ) (layers : Dict Values)
      → nat_eq to conn ≡ false
      → outstanding conn layer (replay to layers) ≡ []
  replay-away to [] away = refl
  replay-away to (entry ∷ layers) away = rw away (replay-away to layers away)

  replay-absent :
      (layers : Dict Values)
      → lookup layer layers ≡ none
      → outstanding conn layer (replay conn layers) ≡ []
  unfolding lookup
  replay-absent [] absent = refl
  replay-absent (entry ∷ layers) absent = elim (Bool-cases (entry.0 == layer)) [
    | inl e ↦ ground (arith, absent, e)
    | inr e ↦
        let rec = replay-absent layers (ground (arith, absent, e)) in
        rw ((nat_eq_iff conn conn).1 refl, e) rec
  ]

  replay-present :
      (layers : Dict Values) (v : Values)
      → UniqueKeys layers
      → lookup layer layers ≡ some v
      → outstanding conn layer (replay conn layers) ≡ v ∷ []
  unfolding lookup
  replay-present [] v u present = ground (arith, present)
  replay-present (entry ∷ layers) v u present = elim (Bool-cases (entry.0 == layer)) [
    | inl e ↦
        let same = (eq_iff entry.0 layer).0 e in
        let value : entry.1 ≡ v = ground (arith, present, e) in
        rw
          (
            (nat_eq_iff conn conn).1 refl,
            e,
            replay-absent layers (subst (λ k. lookup k layers ≡ none) same u.0),
            value,
          )
          refl
    | inr e ↦
        let rec = replay-present layers v u.1 (ground (arith, present, e)) in
        rw ((nat_eq_iff conn conn).1 refl, e) rec
  ]

  responses-away :
      (other : String) (v : Values) (streams : Dict ℕ)
      → (other == layer) ≡ false
      → outstanding conn layer (responses other v streams) ≡ []
  responses-away other v [] away = refl
  responses-away other v (entry ∷ streams) away =
      let rec = responses-away other v streams away in ground (arith, rec, away)

  responses-All :
      (other : String) (v : Values) (streams : Dict ℕ)
      → All (λ (y : Values). y ≡ v) (outstanding conn layer (responses other v streams))
  responses-All other v [] = tt
  responses-All other v (entry ∷ streams) =
      let rec = responses-All other v streams in
      elim (Bool-cases (nat_eq entry.1 conn && (other == layer))) [
        | inl e ↦ rw e (refl, rec)
        | inr e ↦ rw e rec
      ]

  responses-Due :
      (v : Values) (held : Option Values) (streams : Dict ℕ)
      → is_registered conn streams ≡ true
      → Due v held (outstanding conn layer (responses layer v streams))
  responses-Due v held [] there = ground arith
  responses-Due v held (entry ∷ streams) there = elim (Bool-cases (nat_eq entry.1 conn)) [
    | inl e ↦ rw (e, (eq_iff layer layer).1 refl) (refl, responses-All layer v streams)
    | inr e ↦ rw e (responses-Due v held streams (ground (arith, there, e)))
  ]

pub sends-begin :
    (conn : ℕ) (layer : String) (v : Values) (layers : Dict Values) (sends : List Send)
    → UniqueKeys layers
    → lookup layer layers ≡ some v
    → All (λ (x : Send). nat_eq x.conn conn ≡ false) sends
    → outstanding conn layer (replay conn layers ++ sends) ≡ v ∷ []
sends-begin conn layer v layers sends unique now fresh =
    outstanding-append conn layer (replay conn layers) sends
    ∙ rw (replay-present conn layer layers v unique now, outstanding-away conn layer sends fresh)
        refl

pub sends-begin_away :
    (conn c : ℕ) (layer : String) (layers : Dict Values) (sends : List Send)
    → nat_eq conn c ≡ false
    → outstanding c layer (replay conn layers ++ sends) ≡ outstanding c layer sends
sends-begin_away conn c layer layers sends away =
    outstanding-append c layer (replay conn layers) sends
    ∙ rw (replay-away c layer conn layers away) refl

pub sends-publish :
    (c : ℕ) (layer : String) (v : Values) (held : Option Values) (streams : Dict ℕ)
    (sends : List Send)
    → is_registered c streams ≡ true
    → is_nonempty (outstanding c layer sends) ≡ false
    → Due v held (outstanding c layer (responses layer v streams ++ sends))
sends-publish c layer v held streams sends there alone =
    subst (Due v held) (sym (outstanding-append c layer (responses layer v streams) sends)) (
      Due-alone v held (outstanding c layer (responses layer v streams)) (outstanding c layer sends)
        alone (responses-Due c layer v held streams there))

pub sends-publish_away :
    (c : ℕ) (layer other : String) (v : Values) (streams : Dict ℕ) (sends : List Send)
    → (layer == other) ≡ false
    → outstanding c other (responses layer v streams ++ sends) ≡ outstanding c other sends
sends-publish_away c layer other v streams sends away =
    outstanding-append c other (responses layer v streams) sends
    ∙ rw (responses-away c other layer v streams away) refl
