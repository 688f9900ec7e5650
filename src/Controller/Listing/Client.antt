-- ===== src/Controller/Listing/Client.antt =====
-- What a client reads that calls ListVolumes again with each token that it gets.
use mathlib.Core.List.{Perm}
use csi_driver_ipfs.Base.{
  ℕ, zero, suc, ◌+◌, ◌^◌, ◌<◌, ◌≡◌, refl, ap, ◌∙◌, Option, none, some, List, [], ◌∷◌, map, ok, err,
  arith, Option-cases, inl, inr, sym, length, if◌then◌else◌,
}
use csi_driver_ipfs.Base.Int.{ℤ}
use csi_driver_ipfs.Text.{Text, is_empty}
use csi_driver_ipfs.Csi.{Volume}
use csi_driver_ipfs.Store.{VolumeAttributes}
use csi_driver_ipfs.Driver.{Driver, State}
use csi_driver_ipfs.Controller.Listing.{volume_entry, page_of, or_invalid_argument, list_volumes}
use csi_driver_ipfs.Controller.Listing.Order.{
  sort_by_id, sort_onto, insert_by_id, IsSorted, sort_by_id_lem,
}
use csi_driver_ipfs.Controller.Listing.Pages.{follow, follow_all, join_pages}

length-insert : (v : Volume) (ws : List Volume) → length (insert_by_id v ws) ≡ suc (length ws)
unfolding insert_by_id
length-insert v [] = refl
length-insert v (w ∷ ws) = ground (arith, length-insert v ws)

length-sort_onto : (done vs : List Volume) → length (sort_onto done vs) ≡ length vs + length done
unfolding sort_onto
length-sort_onto done [] = omega arith
length-sort_onto done (v ∷ vs) =
    omega (arith, length-sort_onto (insert_by_id v done) vs, length-insert v done)

length-sort_by_id : (vs : List Volume) → length (sort_by_id vs) ≡ length vs
unfolding sort_by_id
length-sort_by_id vs = omega (arith, length-sort_onto [] vs)

length-map : {A B : Type 0} (f : A → B) (xs : List A) → length (map f xs) ≡ length xs
length-map f [] = refl
length-map f (x ∷ xs) = ap suc (length-map f xs)

module _ {W : Type 0} (d : Driver W) (max_entries : ℤ) where
  -- The entries of the pages from a token on, where no call fails and `fuel` calls are enough.
  unfoldable pub read_all : ℕ → Text → State W → Option (List Volume)
  read_all zero token s = none
  read_all (suc fuel) token s =
      let answer = list_volumes d max_entries token s in
      elim answer.0 [
        | err code ↦ none
        | ok page ↦
            let rest = read_all fuel page.next_token answer.1 in
            if is_empty page.next_token then some page.entries else join_pages page rest
      ]

  module _ (vs : List VolumeAttributes)
      (steady : (w : W) → (d.volumes.list_volumes d.cfg.driver_name w).0 ≡ ok vs) where
    abbrev sorted : List Volume
    sorted = sort_by_id (map volume_entry vs)

    list_volumes_page :
        (token : Text) (s : State W)
        → (list_volumes d max_entries token s).0
          ≡ or_invalid_argument (page_of sorted max_entries token)
    unfolding list_volumes
    list_volumes_page token s = rw (steady s.world) refl

    read_all-follow :
        (fuel : ℕ) (token : Text) (s : State W)
        → read_all fuel token s ≡ follow fuel sorted max_entries token
    unfolding read_all follow
    read_all-follow zero token s = refl
    read_all-follow (suc fuel) token s =
        let answer = list_volumes d max_entries token s in
        elim (Option-cases (page_of sorted max_entries token)) [
          | inl none_there ↦
              let refused = list_volumes_page token s ∙ ap or_invalid_argument none_there in
              rw (read_all, refused, follow, none_there) refl
          | inr (page, there) ↦
              let found = list_volumes_page token s ∙ ap or_invalid_argument there in
              rw (read_all, found, follow, there)
                (ap
                  (λ rest.
                    if is_empty page.next_token then some page.entries else join_pages page rest)
                  (read_all-follow fuel page.next_token answer.1))
        ]

    -- A client that calls ListVolumes from the first page on, each time with the token of the page
    -- before, while the store answers the same fewer than 2 ^ 63 volumes: with no more than one
    -- call for each volume and one, it has read every volume of the store once, sorted by ID,
    -- whatever the limit of a page is.
    pub read_all-IsSorted :
        (s : State W)
        → length vs < 2 ^ 63
        → (read : List Volume) × (read_all (suc (length vs)) [] s ≡ some read)
          × IsSorted read
          × Perm read (map volume_entry vs)
    read_all-IsSorted s few =
        let size = length-sort_by_id (map volume_entry vs) ∙ length-map volume_entry vs in
        let order = sort_by_id_lem (map volume_entry vs) in
        (
          sorted,
          read_all-follow (suc (length vs)) [] s
              ∙ ap (λ n. follow (suc n) sorted max_entries []) (sym size)
              ∙ follow_all sorted max_entries (omega (arith, size)),
          order.0,
          order.1,
        )
