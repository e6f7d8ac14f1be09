-- ===== src/Board/Position/Checks/Total.antt =====
-- With both kings on the board the caches can be recomputed.
use rfish.Prelude.{◌≡◌, refl, ◌∙◌, some, >>=-some, Holds, Holds-bind, Holds-next}
use rfish.Board.Piece.{Color, white, black, opponent}
use rfish.Board.Square.{Square}
use rfish.Board.Attacks.{Sliders}
use rfish.Board.Placement.{Placement, king_square}
use rfish.Board.Position.{StateInfo}
use rfish.Board.Position.Checks.{pins_of, set_check_info}

abbrev pub HasKings : Placement → Type 0
HasKings p = (c : Color) → (ksq : Square) × (king_square p c ≡ some ksq)

module _ (sl : Sliders) (p : Placement) (kings : HasKings p) where
  pins_of-some : (c : Color) (st : StateInfo) → (st' : StateInfo) × (pins_of sl p c st ≡ some st')
  unfolding pins_of
  pins_of-some c st = (_, >>=-some (king_square p c) _ (kings c).1)

  pub set_check_info-some :
      (us : Color) (st : StateInfo) → (st' : StateInfo) × (set_check_info sl p us st ≡ some st')
  unfolding set_check_info
  set_check_info-some us st =
      let (st1, first) = pins_of-some white st in
      let (st2, second) = pins_of-some black st1 in
      (
        _,
        >>=-some (pins_of sl p white st) _ first
            ∙ >>=-some (pins_of sl p black st1) _ second
            ∙ >>=-some (king_square p (opponent us)) _ (kings (opponent us)).1,
      )

-- The fields that the key is about, in two states.
abbrev pub SameKeyed : StateInfo → StateInfo → Type 0
SameKeyed a b =
    (a.key ≡ b.key) × (a.ep_square ≡ b.ep_square) × (a.castling_rights ≡ b.castling_rights)

module _ (sl : Sliders) (p : Placement) where
  pins_of-kept : (c : Color) (st : StateInfo) → Holds (λ st'. SameKeyed st' st) (pins_of sl p c st)
  unfolding pins_of
  pins_of-kept c st =
      Holds-bind (λ st'. SameKeyed st' st) (king_square p c) _ (λ ksq. (refl, refl, refl))

  pub set_check_info-kept :
      (us : Color) (st : StateInfo) → Holds (λ st'. SameKeyed st' st) (set_check_info sl p us st)
  unfolding set_check_info
  set_check_info-kept us st =
      Holds-next (λ st'. SameKeyed st' st) (λ st1. SameKeyed st1 st) (pins_of sl p white st) _
        (pins_of-kept white st)
        (λ st1 first.
          Holds-next (λ st'. SameKeyed st' st) (λ st2. SameKeyed st2 st1) (pins_of sl p black st1) _
            (pins_of-kept black st1)
            (λ st2 second.
              Holds-bind (λ st'. SameKeyed st' st) (king_square p (opponent us)) _
                (λ ksq. (second.0 ∙ first.0, second.1 ∙ first.1, second.2 ∙ first.2))))
