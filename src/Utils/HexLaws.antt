-- ===== src/Utils/HexLaws.antt =====
-- What `remove_all_chars` leaves, and that `hexstr_to_char` reads a printed key.
use ccips_cfgipsec.Base.{
  ℕ, zero, suc, ◌+◌, ◌*◌, ◌/◌, ◌%◌, ◌<◌, ◌≡◌, ◌≢◌, refl, sym, ap, ◌∙◌, Bool, true, false, some,
  List, [], ◌∷◌, ◌++◌, arith, ltb, ◌==◌, if◌then◌else◌, ok, Bool-cases, inl, inr,
}
use ccips_cfgipsec.Base.Lists.{length, set, All, length-append, set-append}
use ccips_cfgipsec.Text.{Text, c_string}
use ccips_cfgipsec.Utils.Hex.{
  get_elem?, remove_loop, remove_all_chars, hex_value, hex_pairs, hexstr_to_char,
}
use mathlib.Core.List.{append_assoc}

-- The reference: the text less every `c`.
unfoldable pub without : ℕ → Text → Text
without c [] = []
without c (x ∷ s) = let rest = without c s in if x == c then rest else x ∷ rest

abbrev pub NoNul : Text → Type 0
NoNul s = All (λ x. x ≢ 0) s

get_elem?-append :
    (xs : List ℕ) (y : ℕ) (ys : List ℕ) (i : ℕ)
    → i ≡ length xs
    → get_elem? (xs ++ (y ∷ ys)) i ≡ some y
unfolding get_elem?
get_elem?-append [] y ys i e = rw e
get_elem?-append (x ∷ xs) y ys i e = rw e (get_elem?-append xs y ys (length xs) refl)

c_string-append : (s t : Text) → NoNul s → c_string (s ++ (0 ∷ t)) ≡ s
unfolding c_string
c_string-append [] t h = refl
c_string-append (x ∷ s) t (hx, hs) =
    let e : (x == 0) ≡ false = ground arith in rw (e, c_string-append s t hs)

-- One round of the loop on a buffer whose text is read up to `rest`: `out` is written for good, and
-- `gap` stands between the two pointers.
module _ (c : ℕ) where
  -- `x` goes to the front of the gap, and what stood there last is pushed behind it.
  write_front :
      (out gap : List ℕ) (x : ℕ) (rest : List ℕ)
      → (g : List ℕ) × (set (out ++ (gap ++ (x ∷ rest))) (length out) x ≡ out ++ (x ∷ (g ++ rest)))
        × (length g ≡ length gap)
  write_front out [] x rest = ([], set-append out x rest x, refl)
  write_front out (y ∷ gap) x rest = (
    gap ++ (x ∷ []),
    set-append out y (gap ++ (x ∷ rest)) x
        ∙ ap (λ t. out ++ (x ∷ t)) (sym (append_assoc gap (x ∷ []) rest)),
    omega (arith, length-append {0} gap (x ∷ [])),
  )

  read_front :
      (out gap : List ℕ) (x : ℕ) (rest : List ℕ) (pr : ℕ)
      → pr ≡ length out + length gap
      → get_elem? (out ++ (gap ++ (x ∷ rest))) pr ≡ some x
  read_front out gap x rest pr e =
      rw (← append_assoc out gap (x ∷ rest))
        (get_elem?-append (out ++ gap) x rest pr (omega (arith, length-append {0} out gap)))

  -- The loop ends, within as many rounds as there are characters and one more, in a buffer that begins
  -- with the reference's text and a NUL.
  remove_loop-without :
      (fuel : ℕ) (out gap s : List ℕ) (pr : ℕ)
      → NoNul s
      → pr ≡ length out + length gap
      → length s < fuel
      → (t : List ℕ) × (remove_loop c fuel (out ++ (gap ++ (s ++ (0 ∷ [])))) pr (length out)
          ≡ ok (out ++ (without c s ++ (0 ∷ t))))
  unfolding remove_loop without
  remove_loop-without zero out gap s pr h hr hf = absurd (omega arith)
  remove_loop-without (suc fuel) out gap [] pr h hr hf =
      let (g, written, _) = write_front out gap 0 [] in
      (g ++ [], rw (read_front out gap 0 [] pr hr, remove_loop) (ap ok written))
  remove_loop-without (suc fuel) out gap (x ∷ s) pr (hx, hs) hr hf =
      let (g, written, len) = write_front out gap x (s ++ (0 ∷ [])) in
      let char : (x == 0) ≡ false = ground arith in
      rw (read_front out gap x (s ++ (0 ∷ [])) pr hr, remove_loop)
        (rw (char, written)
          (elim (Bool-cases (x == c)) [
            | inl drop ↦
                rw drop
                  (remove_loop-without fuel out (x ∷ g) s (pr + 1) hs (omega arith) (omega arith))
            | inr keep ↦ rw keep (
                let (t, ih) =
                  remove_loop-without fuel (out ++ (x ∷ [])) g s (pr + 1) hs
                    (omega (arith, length-append {0} out (x ∷ []))) (omega arith) in
                let buffer = append_assoc out (x ∷ []) (g ++ (s ++ (0 ∷ []))) in
                let result = append_assoc out (x ∷ []) (without c s ++ (0 ∷ t)) in
                (t, rw (buffer, result, length-append out (x ∷ [])) at ih))
          ]))

without-NoNul : (c : ℕ) (s : Text) → NoNul s → NoNul (without c s)
unfolding without
without-NoNul c [] h = h
without-NoNul c (x ∷ s) (hx, hs) = elim (Bool-cases (x == c)) [
  | inl drop ↦ rw drop (without-NoNul c s hs)
  | inr keep ↦ rw keep (hx, without-NoNul c s hs)
]

-- The two-pointer loop of `remove_all_chars` stays inside its buffer, ends, and leaves the text less
-- every `c`, for every text without a NUL.
pub remove_all_chars-without :
    (c : ℕ) (s : Text) → NoNul s → remove_all_chars s c ≡ ok (without c s)
unfolding remove_all_chars
remove_all_chars-without c s h =
    let (t, e) = remove_loop-without c (length s + 1) [] [] s 0 h (omega arith) (omega arith) in
    rw e (ap ok (c_string-append (without c s) t (without-NoNul c s h)))

-- A hexadecimal digit in upper or lower case.
unfoldable pub hex_digit : Bool → ℕ → ℕ
hex_digit upper v = if ltb v 10 then 48 + v else (if upper then 55 + v else 87 + v)

hex_digit_value :
    (upper : Bool) (v : ℕ)
    → v < 16
    → (hex_value (hex_digit upper v) ≡ v) × (hex_digit upper v ≢ 0) × (hex_digit upper v ≢ b':')
unfolding hex_value hex_digit
hex_digit_value upper v h = ground arith

abbrev pub IsByte : ℕ → Type 0
IsByte b = b < 256

module _ (upper : Bool) where
  -- A key as the YANG type hex-string prints it: two digits a byte, with `:` between the bytes.
  unfoldable pub format_key : List ℕ → Text
  format_key [] = []
  format_key (b ∷ []) = hex_digit upper (b / 16) ∷ hex_digit upper (b % 16) ∷ []
  format_key (b ∷ b' ∷ bs) =
      hex_digit upper (b / 16) ∷ hex_digit upper (b % 16) ∷ b':' ∷ format_key (b' ∷ bs)

  -- The digits alone.
  digits_of : List ℕ → Text
  digits_of [] = []
  digits_of (b ∷ bs) = hex_digit upper (b / 16) ∷ hex_digit upper (b % 16) ∷ digits_of bs

  high_digit :
      (b : ℕ)
      → IsByte b
      → (hex_value (hex_digit upper (b / 16)) ≡ b / 16)
        × (hex_digit upper (b / 16) ≢ 0)
        × (hex_digit upper (b / 16) ≢ b':')
  high_digit b h = hex_digit_value upper (b / 16) (omega arith)

  low_digit :
      (b : ℕ)
      → (hex_value (hex_digit upper (b % 16)) ≡ b % 16)
        × (hex_digit upper (b % 16) ≢ 0)
        × (hex_digit upper (b % 16) ≢ b':')
  low_digit b = hex_digit_value upper (b % 16) (omega arith)

  format_key-NoNul : (bs : List ℕ) → All IsByte bs → NoNul (format_key bs)
  unfolding format_key
  format_key-NoNul [] h = h
  format_key-NoNul (b ∷ []) (hb, h) = ((high_digit b hb).1, ((low_digit b).1, tt))
  format_key-NoNul (b ∷ b' ∷ bs) (hb, h) =
      ((high_digit b hb).1, ((low_digit b).1, (omega arith, format_key-NoNul (b' ∷ bs) h)))

  without-keep : (x : ℕ) (s : Text) → x ≢ b':' → without b':' (x ∷ s) ≡ x ∷ without b':' s
  unfolding without
  without-keep x s h = let e : (x == b':') ≡ false = ground arith in rw e

  without-separator : (s : Text) → without b':' (b':' ∷ s) ≡ without b':' s
  unfolding without
  without-separator s = refl

  without-nil : without b':' [] ≡ []
  unfolding without
  without-nil = refl

  without-format_key : (bs : List ℕ) → All IsByte bs → without b':' (format_key bs) ≡ digits_of bs
  unfolding format_key digits_of
  without-format_key [] h = without-nil
  without-format_key (b ∷ []) (hb, h) = rw (
    without-keep (hex_digit upper (b / 16)) _ (high_digit b hb).2,
    without-keep (hex_digit upper (b % 16)) _ (low_digit b).2,
    without-nil,
  )
  without-format_key (b ∷ b' ∷ bs) (hb, h) = rw (
    without-keep (hex_digit upper (b / 16)) _ (high_digit b hb).2,
    without-keep (hex_digit upper (b % 16)) _ (low_digit b).2,
    without-separator (format_key (b' ∷ bs)),
    without-format_key (b' ∷ bs) h,
  )

  hex_pairs-digits_of : (bs : List ℕ) → All IsByte bs → hex_pairs (digits_of bs) ≡ bs
  unfolding hex_pairs digits_of
  hex_pairs-digits_of [] h = refl
  hex_pairs-digits_of (b ∷ bs) (hb, h) =
      let byte : (b / 16 * 16 + b % 16) % 256 ≡ b = omega arith in
      rw ((high_digit b hb).0, (low_digit b).0, hex_pairs-digits_of bs h, byte)

  length-digits_of : (bs : List ℕ) → length (digits_of bs) ≡ 2 * length bs
  unfolding digits_of
  length-digits_of [] = omega arith
  length-digits_of (b ∷ bs) = omega (arith, length-digits_of bs)

  -- `hexstr_to_char` reads back the bytes of every key that is printed as pairs of hexadecimal digits
  -- with `:` between them, in upper or in lower case.
  pub hexstr_to_char-format_key :
      (bs : List ℕ) → All IsByte bs → hexstr_to_char (format_key bs) ≡ ok (some bs)
  unfolding hexstr_to_char
  hexstr_to_char-format_key bs h =
      let even : (length (digits_of bs) % 2 == 0) ≡ true = ground (arith, length-digits_of bs) in
      rw
        (
          remove_all_chars-without b':' (format_key bs) (format_key-NoNul bs h),
          without-format_key bs h,
        )
        (rw (even, hex_pairs-digits_of bs h))
