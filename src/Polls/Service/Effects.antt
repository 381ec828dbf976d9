-- ===== src/Polls/Service/Effects.antt =====
-- What an effect on the tables of polls and options preserves, and the move of the abstract machine
-- that it is for each poll.
use whenweall.Prelude.{
  ◌≡◌, refl, sym, ap, subst, ◌∙◌, ◌⊎◌, inl, inr, [], ◌∷◌, ==_iff, Has, Has-left, Any-append,
  Has-kept, Has-changed, Bool-cases,
}
use whenweall.Polls.Store.{Poll, PollOption, Db}
use whenweall.Polls.Service.{has_poll_id}
use whenweall.Polls.Service.Phases.{
  phase, Move, stays, IsSettled, IsConsistent, Addition, Effect, nothing, changed, added,
  Change-IsConsistent, settled-spared,
}

module _ (db db' : Db) (h : IsConsistent db) where
  module _ (a : Addition db db') where
    row_of_addition : (y : Poll) → Has y db'.polls → Has y db.polls ⊎ (y ≡ a.p)
    row_of_addition y at =
        elim (Any-append (λ x. y ≡ x) db.polls (a.p ∷ []) (subst (Has y) a.polls at)) [
          | inl before ↦ inl before
          | inr new ↦ elim new [ inl e ↦ inr e | inr none_left ↦ absurd none_left ]
        ]

    Addition-IsConsistent : IsConsistent db'
    Addition-IsConsistent = record { unique = unique'; owned = a.owned; settled = settled' }
      where
        unique' : (x y : Poll) → Has x db'.polls → Has y db'.polls → x.id ≡ y.id → x ≡ y
        unique' x y at_x at_y e = elim (row_of_addition x at_x) [
          | inl in_x ↦ elim (row_of_addition y at_y) [
            | inl in_y ↦ h.unique x y in_x in_y e
            | inr ey ↦ absurd (a.is_new x in_x (e ∙ ap Poll.id ey))
          ]
          | inr ex ↦ elim (row_of_addition y at_y) [
            | inl in_y ↦ absurd (a.is_new y in_y (sym e ∙ ap Poll.id ex))
            | inr ey ↦ ex ∙ sym ey
          ]
        ]

        settled' : (y : Poll) → Has y db'.polls → IsSettled db'.poll_options y
        settled' y at = elim (row_of_addition y at) [
          | inr e ↦ subst (IsSettled db'.poll_options) (sym e) a.settled
          | inl before ↦
              settled-spared db.poll_options db'.poll_options y.id y.kind y.status
                y.finalized_option_id (λ o at_o own. a.spares o at_o) (h.settled y before)
        ]

  pub Effect-IsConsistent : Effect db db' → IsConsistent db'
  Effect-IsConsistent (nothing polls options) = record {
    unique =
        subst (λ ps. (a b : Poll) → Has a ps → Has b ps → a.id ≡ b.id → a ≡ b) (sym polls) h.unique;
    owned =
        subst (λ os. (a b : PollOption) → Has a os → Has b os → a.id ≡ b.id → a.poll_id ≡ b.poll_id)
          (sym options) h.owned;
    settled =
        λ p at. subst (λ os. IsSettled os p) (sym options) (h.settled p (subst (Has p) polls at));
  }
  Effect-IsConsistent (changed c) = Change-IsConsistent db db' h c
  Effect-IsConsistent (added a) = Addition-IsConsistent a

  pub Effect-Move :
      (x : Poll)
      → Has x db.polls
      → Effect db db'
      → (y : Poll) × Has y db'.polls × (y.id ≡ x.id) × Move (phase x) (phase y)
  Effect-Move x at (nothing polls options) = (x, subst (Has x) (sym polls) at, refl, stays)
  Effect-Move x at (added a) =
      (x, subst (Has x) (sym a.polls) (Has-left x db.polls (a.p ∷ []) at), refl, stays)
  Effect-Move x at (changed c) = elim (Bool-cases (has_poll_id c.p.id x)) [
    | inl met ↦
        let same : x ≡ c.p = h.unique x c.p at c.at ((==_iff x.id c.p.id).0 met) in
        (
          c.f x,
          subst (Has (c.f x)) (sym c.polls)
              (Has-changed x (has_poll_id c.p.id) c.f db.polls at met),
          c.keeps_id x,
          subst (λ z. Move (phase z) (phase (c.f z))) (sym same) c.move,
        )
    | inr other ↦ (
      x,
      subst (Has x) (sym c.polls) (Has-kept x (has_poll_id c.p.id) c.f db.polls at other),
      refl,
      stays,
    )
  ]
