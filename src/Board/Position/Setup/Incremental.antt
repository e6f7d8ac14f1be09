-- ===== src/Board/Position/Setup/Incremental.antt =====
-- Each step of a move keeps the state's key the key of what the step leaves.
use rfish.Prelude.{◌<◌, ◌≡◌, arith, refl, ap, ap₂, sym, subst, ◌∙◌}
use rfish.Prelude.{Bool-cases, Option-cases, inl, inr, none, some, bit_xor}
use rfish.Prelude.Bits.{xor_assoc, xor_swap, xor_cancel, xor_self}
use rfish.Board.Square.{Square, SquareOrNone, no_square, square, file}
use rfish.Board.Castling.{CastlingRights, union, intersect, is_empty as no_rights_left}
use rfish.Board.Zobrist.{Tables, Key}
use rfish.Board.Position.{StateInfo}
use rfish.Board.Position.Setup.{ep_part}
use rfish.Board.Position.State.{carry, clear_ep, drop_rights}

-- The sums of four parts, one of which changes.
module _ (k b e s c : Key) (h : k ≡ bit_xor (bit_xor (bit_xor b e) s) c) (d : Key) where
  board_changes : bit_xor k d ≡ bit_xor (bit_xor (bit_xor (bit_xor b d) e) s) c
  board_changes =
      ap (λ t. bit_xor t d) h
      ∙ xor_swap (bit_xor (bit_xor b e) s) c d
      ∙ ap (λ t. bit_xor t c) (xor_swap (bit_xor b e) s d ∙ ap (λ t. bit_xor t s) (xor_swap b e d))

  pub ep_changes : bit_xor k d ≡ bit_xor (bit_xor (bit_xor b (bit_xor e d)) s) c
  ep_changes =
      ap (λ t. bit_xor t d) h
      ∙ xor_swap (bit_xor (bit_xor b e) s) c d
      ∙ ap (λ t. bit_xor t c) (xor_swap (bit_xor b e) s d ∙ ap (λ t. bit_xor t s) (xor_assoc b e d))

  side_changes : bit_xor k d ≡ bit_xor (bit_xor (bit_xor b e) (bit_xor s d)) c
  side_changes =
      ap (λ t. bit_xor t d) h
      ∙ xor_swap (bit_xor (bit_xor b e) s) c d
      ∙ ap (λ t. bit_xor t c) (xor_assoc (bit_xor b e) s d)

  castling_changes : bit_xor (bit_xor k c) d ≡ bit_xor (bit_xor (bit_xor b e) s) d
  castling_changes =
      ap (λ t. bit_xor (bit_xor t c) d) h
      ∙ ap (λ t. bit_xor t d) (xor_cancel (bit_xor (bit_xor b e) s) c)

no_square_of : (sq : SquareOrNone) → square sq ≡ none → sq ≡ no_square
unfolding square
no_square_of sq e = ground arith

clear_ep-none :
    (keys : Tables) (st : StateInfo) → square st.ep_square ≡ none → clear_ep keys st ≡ st
unfolding clear_ep
clear_ep-none keys st e = rw (e, clear_ep) refl

clear_ep-some :
    (keys : Tables) (st : StateInfo) (ep : Square)
    → square st.ep_square ≡ some ep
    → clear_ep keys st
      ≡ record st { key = bit_xor st.key (keys.en_passant (file ep)); ep_square = no_square }
unfolding clear_ep
clear_ep-some keys st ep e = rw (e, clear_ep) refl

module _ (keys : Tables) where
  -- The key is the sum of the board's, the en-passant square's, the side's and the rights' parts.
  abbrev pub IsKeyed : Key → Key → StateInfo → Type 0
  IsKeyed b s st =
      st.key
      ≡ bit_xor (bit_xor (bit_xor b (ep_part keys st.ep_square)) s)
          (keys.castling st.castling_rights)

  pub on_board_part : (ep : Square) → ep < 64 → ep_part keys ep ≡ keys.en_passant (file ep)
  unfolding square
  on_board_part ep fits = ground arith

  pub no_ep_part : ep_part keys no_square ≡ 0
  unfolding square
  no_ep_part = refl

  module _ (b s : Key) (st : StateInfo) (h : IsKeyed b s st) where
    carry-IsKeyed : IsKeyed b (bit_xor s keys.side) (carry keys st)
    unfolding carry
    carry-IsKeyed =
        side_changes st.key b (ep_part keys st.ep_square) s (keys.castling st.castling_rights) h
          keys.side

    ep_leaves :
        (d : Key)
        → ep_part keys st.ep_square ≡ d
        → bit_xor st.key d ≡ bit_xor (bit_xor (bit_xor b 0) s) (keys.castling st.castling_rights)
    ep_leaves d e =
        ep_changes st.key b (ep_part keys st.ep_square) s (keys.castling st.castling_rights) h d
        ∙ ap (λ t. bit_xor (bit_xor (bit_xor b t) s) (keys.castling st.castling_rights))
            (ap (λ t. bit_xor t d) e ∙ xor_self d)

    clear_ep-IsKeyed : IsKeyed b s (clear_ep keys st) × ((clear_ep keys st).ep_square ≡ no_square)
    clear_ep-IsKeyed = elim (Option-cases (square st.ep_square)) [
      | inl nothing ↦
          subst (λ t. IsKeyed b s t × (t.ep_square ≡ no_square))
            (sym (clear_ep-none keys st nothing)) (h, no_square_of st.ep_square nothing)
      | inr (sq, there) ↦
          let part : ep_part keys st.ep_square ≡ keys.en_passant (file sq) =
            rw (there, ep_part) refl in
          let sum = ep_leaves (keys.en_passant (file sq)) part in
          subst (λ t. IsKeyed b s t × (t.ep_square ≡ no_square))
            (sym (clear_ep-some keys st sq there))
            (
              sum
                  ∙ ap (λ t. bit_xor (bit_xor (bit_xor b t) s) (keys.castling st.castling_rights))
                      (sym no_ep_part),
              refl,
            )
    ]

    drop_rights-IsKeyed :
        (mask_from mask_to : CastlingRights)
        → IsKeyed b s (drop_rights keys mask_from mask_to st)
          × ((drop_rights keys mask_from mask_to st).ep_square ≡ st.ep_square)
    unfolding drop_rights
    drop_rights-IsKeyed mask_from mask_to =
        elim (Bool-cases
          (no_rights_left (intersect (union mask_from mask_to) st.castling_rights))) [
            | inl none_lost ↦ rw none_lost (h, refl)
            | inr some_lost ↦ rw some_lost (
              castling_changes st.key b (ep_part keys st.ep_square) s
                  (keys.castling st.castling_rights) h _,
              refl,
            )
          ]

  -- A state that a later step starts from: keyed, with no en-passant square.
  abbrev pub IsReady : Key → Key → StateInfo → Type 0
  IsReady b s st = IsKeyed b s st × (st.ep_square ≡ no_square)

  pub prepared_lem :
      (b s : Key) (st : StateInfo) (mask_from mask_to : CastlingRights)
      → IsKeyed b s st
      → IsReady b
          (bit_xor s keys.side)
          (drop_rights keys mask_from mask_to (clear_ep keys (carry keys st)))
  prepared_lem b s st mask_from mask_to h =
      let s' = bit_xor s keys.side in
      let (cleared, no_ep) = clear_ep-IsKeyed b s' (carry keys st) (carry-IsKeyed b s st h) in
      let (dropped, same) =
        drop_rights-IsKeyed b s' (clear_ep keys (carry keys st)) cleared mask_from mask_to in
      (dropped, same ∙ no_ep)

  pub null-IsReady :
      (b s : Key) (st : StateInfo)
      → IsKeyed b s st
      → IsReady b
          (bit_xor s keys.side)
          (clear_ep keys (record st { key = bit_xor st.key keys.side }))
  null-IsReady b s st h =
      clear_ep-IsKeyed b (bit_xor s keys.side) (record st { key = bit_xor st.key keys.side })
        (side_changes st.key b (ep_part keys st.ep_square) s (keys.castling st.castling_rights) h
          keys.side)

  -- The fields that a step leaves, and the key that it moves by `d` with the board's.
  pub IsReady-moves :
      (b s d : Key) (st st' : StateInfo)
      → IsReady b s st
      → st'.key ≡ bit_xor st.key d
      → st'.ep_square ≡ st.ep_square
      → st'.castling_rights ≡ st.castling_rights
      → IsReady (bit_xor b d) s st'
  IsReady-moves b s d st st' (h, no_ep) key ep rights = (
    key
        ∙ board_changes st.key b (ep_part keys st.ep_square) s (keys.castling st.castling_rights) h
            d
        ∙ ap₂
            (λ e c. bit_xor (bit_xor (bit_xor (bit_xor b d) (ep_part keys e)) s) (keys.castling c))
            (sym ep) (sym rights),
    ep ∙ no_ep,
  )
