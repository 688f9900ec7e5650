-- ===== src/Node/Emptied.antt =====
-- What the local files are after a directory was emptied, where the host does what it documents.
use csi_driver_ipfs.Base.{
  ◌≡◌, refl, ap, ◌∙◌, Bool, false, ◌||◌, Option, none, List, [], ◌∷◌, ◌++◌, ok, All, arith,
  if◌then◌else◌,
}
use csi_driver_ipfs.Base.Exec.{bind-ok, bind-keeps}
use csi_driver_ipfs.Text.{Text}
use csi_driver_ipfs.MfsPath.{slash}
use csi_driver_ipfs.MfsPath.Resolve.{IsPlain}
use csi_driver_ipfs.Driver.{Driver, State, Host}
use csi_driver_ipfs.Driver.Calls
use csi_driver_ipfs.Node.Content.{join_path, remove_entries, ensure_empty_directory}
use csi_driver_ipfs.Ipfs.Import.Stored.{is_within}
use csi_driver_ipfs.Ipfs.Import.Targets.{IsCanonical}
use csi_driver_ipfs.Ipfs.Export.Written.{is_within-join_path}

-- Whether a relative path is within one of the entries of a directory.
abbrev pub is_listed : List Text → Text → Bool
is_listed [] rel = false
is_listed (entry ∷ entries) rel = is_within entry rel || is_listed entries rel

-- What is relied on of the host. `local_at` reads a local file. Making a directory and listing one
-- touch no file, a listing of the directory at `path` has plain names and misses no entry that has
-- a file at the relative path `rel`, and a removal that succeeds takes all within its path and nothing else. None of these
-- touches MFS, of which `stored` is a part.
pub record IsHost {W C D : Type 0} (h : Host W) (local_at : W → Text → Option C) (stored : W → D)
    (path rel : Text) : Type 0 where
  pub makes : (p : Text) (w : W) (q : Text) → local_at (h.mkdir_all p w).1 q ≡ local_at w q
  pub lists : (p : Text) (w : W) (q : Text) → local_at (h.read_dir p w).1 q ≡ local_at w q
  pub misses_none :
      (w : W) (entries : List Text)
      → (h.read_dir path w).0 ≡ ok entries
      → All IsPlain entries
        × (is_listed entries rel ≡ false → local_at w (path ++ slash ∷ rel) ≡ none)
  pub removes :
      (p : Text) (w : W)
      → (h.remove_all p w).0 ≡ ok tt
      → (q : Text)
      → local_at (h.remove_all p w).1 q ≡ (if is_within p q then none else local_at w q)
  pub make_stored : (p : Text) (w : W) → stored (h.mkdir_all p w).1 ≡ stored w
  pub list_stored : (p : Text) (w : W) → stored (h.read_dir p w).1 ≡ stored w
  pub remove_stored : (p : Text) (w : W) → stored (h.remove_all p w).1 ≡ stored w

module _ {W C D : Type 0} (d : Driver W) (local_at : W → Text → Option C) (stored : W → D)
    (path rel : Text) (is : IsHost d.host local_at stored path rel) where
  abbrev below_path : Text
  below_path = path ++ slash ∷ rel

  remove_entries_clear :
      (entries : List Text) (s : State W)
      → IsCanonical path
      → All IsPlain entries
      → (remove_entries d path entries s).0 ≡ ok tt
      → local_at (remove_entries d path entries s).1.world below_path
        ≡ (if is_listed entries rel then none else local_at s.world below_path)
  unfolding remove_entries
  remove_entries_clear [] s at plain h = refl
  remove_entries_clear (entry ∷ entries) s at (entry_plain, plain) h =
      let (_, done, more, e) =
        bind-ok (Calls.remove_all d (join_path path entry)) (λ _. remove_entries d path entries) s
          tt h in
      ap (λ r. local_at r.1.world below_path) e
      ∙ remove_entries_clear entries _ at plain more
      ∙ ap (λ o. if is_listed entries rel then none else o)
          (is.removes (join_path path entry) s.world done below_path
            ∙ ap (λ b. if b then none else local_at s.world below_path)
                (is_within-join_path path entry rel at entry_plain))
      ∙ ground arith

  -- A directory that was emptied has no file.
  pub ensure_empty_clears :
      (s : State W)
      → IsCanonical path
      → (ensure_empty_directory d path s).0 ≡ ok tt
      → local_at (ensure_empty_directory d path s).1.world below_path ≡ none
  unfolding ensure_empty_directory
  ensure_empty_clears s at h =
      let (_, made, rest, e₁) = bind-ok (Calls.mkdir_all d path) _ s tt h in
      let (entries, listed, more, e₂) = bind-ok (Calls.read_dir d path) _ _ tt rest in
      let w = (d.host.mkdir_all path s.world).1 in
      let (plain, all) = is.misses_none w entries listed in
      ap (λ r. local_at r.1.world below_path) e₁
      ∙ ap (λ r. local_at r.1.world below_path) e₂
      ∙ remove_entries_clear entries _ at plain more
      ∙ ground (arith, all, is.lists path w below_path)

  remove_entries_store :
      (entries : List Text) (s : State W)
      → stored (remove_entries d path entries s).1.world ≡ stored s.world
  unfolding remove_entries
  remove_entries_store [] s = refl
  remove_entries_store (entry ∷ entries) s =
      bind-keeps (λ (t : State W). stored t.world) (Calls.remove_all d (join_path path entry)) _ s
        (is.remove_stored (join_path path entry) s.world) (λ _ t. remove_entries_store entries t)

  pub ensure_empty_stores :
      (s : State W) → stored (ensure_empty_directory d path s).1.world ≡ stored s.world
  unfolding ensure_empty_directory
  ensure_empty_stores s =
      bind-keeps (λ (t : State W). stored t.world) (Calls.mkdir_all d path) _ s
        (is.make_stored path s.world)
        (λ _ t.
          bind-keeps (λ (u : State W). stored u.world) (Calls.read_dir d path) _ t
            (is.list_stored path t.world) (λ entries u. remove_entries_store entries u))
