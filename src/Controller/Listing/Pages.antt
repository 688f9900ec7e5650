-- ===== src/Controller/Listing/Pages.antt =====
-- A client that follows the tokens of ListVolumes reads every volume once.
use csi_driver_ipfs.Base.{
  ℕ, zero, suc, ◌-◌, ◌^◌, ◌≤◌, ◌<◌, ◌≡◌, refl, ap, ◌∙◌, Option, none, some, List, [], ◌∷◌, ◌++◌,
  arith, ltb, length, take, drop, take-append-drop, length-drop, take_all, if◌then◌else◌,
  Bool-cases, ltb→lt, inl, inr,
}
use csi_driver_ipfs.Base.Int.{ℤ, pos, negsuc}
use csi_driver_ipfs.Text.{Text, is_empty}
use csi_driver_ipfs.Decimal.{itoa, is_empty-itoa, atoi-itoa}
use csi_driver_ipfs.Controller.Listing.{start_of, end_of, Page, page_from, page_of}

start_of-itoa : (count n : ℕ) → n ≤ count → count < 2 ^ 63 → start_of count (itoa n) ≡ some n
unfolding start_of
start_of-itoa count n h fits = rw (is_empty-itoa n, atoi-itoa n (omega arith)) (ground arith)

end_of_bounds :
    (count : ℕ) (max_entries : ℤ) (start : ℕ)
    → start ≤ count
    → (start ≤ end_of count max_entries start)
      × (end_of count max_entries start ≤ count)
      × (start < count → start < end_of count max_entries start)
unfolding end_of
end_of_bounds count (pos n) start h = (ground arith, ground arith, λ more. ground arith)
end_of_bounds count (negsuc n) start h = (ground arith, ground arith, λ more. ground arith)

module _ {A : Type 0} where
  abbrev pub join_pages : Page A → Option (List A) → Option (List A)
  join_pages page none = none
  join_pages page (some rest) = some (page.entries ++ rest)

  -- The entries of the pages from a token on, each asked for by the next token of the one before.
  unfoldable pub follow : ℕ → List A → ℤ → Text → Option (List A)
  follow zero all max_entries token = none
  follow (suc fuel) all max_entries token = elim (page_of all max_entries token) [
    | none ↦ none
    | some page ↦
        let rest = follow fuel all max_entries page.next_token in
        if is_empty page.next_token then some page.entries else join_pages page rest
  ]

  take-nil : (n : ℕ) → take {A = A} n [] ≡ []
  take-nil zero = refl
  take-nil (suc n) = refl

  take_between :
      (start end : ℕ) (xs : List A)
      → start ≤ end
      → take (end - start) (drop start xs) ++ drop end xs ≡ drop start xs
  take_between zero end xs h =
      ap (λ n. take n xs ++ drop end xs) (omega arith) ∙ take-append-drop end xs
  take_between (suc start) zero xs h = absurd (omega arith)
  take_between (suc start) (suc end) [] h = ap (λ ys. ys ++ []) (take-nil _)
  take_between (suc start) (suc end) (x ∷ xs) h =
      ap (λ n. take n (drop start xs) ++ drop end xs) (omega arith)
      ∙ take_between start end xs (omega arith)

  follow_page :
      (all : List A) (max_entries : ℤ) (fuel start : ℕ) (token : Text)
      → start_of (length all) token ≡ some start
      → follow (suc fuel) all max_entries token ≡ (
          let page = page_from all max_entries start in
          if is_empty page.next_token
          then some page.entries
          else join_pages page (follow fuel all max_entries page.next_token))
  unfolding follow page_of
  follow_page all max_entries fuel start token at_start = rw (at_start, follow, page_of) refl

  follow_from :
      (all : List A) (max_entries : ℤ)
      → length all < 2 ^ 63
      → (fuel start : ℕ) (token : Text) → start_of (length all) token ≡ some start
      → start ≤ length all
      → length all - start < fuel
      → follow fuel all max_entries token ≡ some (drop start all)
  follow_from all max_entries fits zero start token at_start h enough = absurd (omega arith)
  follow_from all max_entries fits (suc fuel) start token at_start h enough =
      let bounds = end_of_bounds (length all) max_entries start h in
      elim (Bool-cases (ltb (end_of (length all) max_entries start) (length all))) [
        | inl more ↦
            let end = end_of (length all) max_entries start in
            let next = start_of-itoa (length all) end (bounds.1) fits in
            let smaller : length all - end < fuel =
              omega (arith, bounds.0, bounds.1, bounds.2, ltb→lt end (length all) more) in
            rw (follow_page all max_entries fuel start token at_start, more, is_empty-itoa end)
              (rw (follow_from all max_entries fits fuel end (itoa end) next bounds.1 smaller)
                (ap some (take_between start end all bounds.0)))
        | inr last ↦
            rw (follow_page all max_entries fuel start token at_start, last)
              (ap some (take_all _ (drop start all) (ground (arith, length-drop start all))))
      ]

  -- For a list of fewer than 2 ^ 63 entries: following the tokens from the first page, with one
  -- more request than there are volumes as an upper bound on the requests, gives every entry once
  -- and in order, whatever the limit is.
  pub follow_all :
      (all : List A) (max_entries : ℤ)
      → length all < 2 ^ 63
      → follow (suc (length all)) all max_entries [] ≡ some all
  unfolding start_of
  follow_all all max_entries fits =
      follow_from all max_entries fits (suc (length all)) 0 [] refl (omega arith) (omega arith)
