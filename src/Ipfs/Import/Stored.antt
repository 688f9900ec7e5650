-- ===== src/Ipfs/Import/Stored.antt =====
-- What the files of MFS hold after an import, where kubo's calls do what they document.
use csi_driver_ipfs.Base.{
  ◌≡◌, ◌≢◌, refl, sym, ap, ◌∙◌, Bool, true, false, ◌||◌, Option, none, some, List, [], ◌∷◌, ◌++◌,
  Result, ok, err, if◌then◌else◌,
}
use csi_driver_ipfs.Base.Exec.{or_else, map_error-ok, bind-ok}
use csi_driver_ipfs.Text.{Text, text_eq}
use csi_driver_ipfs.Text.Prefix.{has_prefix}
use csi_driver_ipfs.Errors.{Error, wrapped}
use csi_driver_ipfs.MfsPath.{slash}
use csi_driver_ipfs.Node.Content.{join_path}
use csi_driver_ipfs.Ipfs.{mkdir_mfs, rm_mfs, cp_mfs}
use csi_driver_ipfs.Ipfs.Kubo
use csi_driver_ipfs.Ipfs.Kubo.{Api, Session, Tree, failed, leaf, branch, Forest, empty, entry}
use csi_driver_ipfs.Ipfs.Import.{
  below, ipfs_path, import_file, import_entries, import_tree, import_root, import_to_mfs,
}

-- The path itself and all below it.
abbrev pub is_within : Text → Text → Bool
is_within path p = text_eq p path || has_prefix p (path ++ slash ∷ [])

-- What is relied on of kubo. `file_at` reads the file at a path of MFS, `content` the file behind a
-- CID, which never changes, and `bytes` what a handle holds. An add answers a CID with the content,
-- a copy that succeeds puts the content at its target and touches nothing else, a removal that
-- succeeds leaves no file within its path and touches no other, and the other calls touch no file.
pub record IsMfs {W H C : Type 0} (k : Api W H) (file_at : W → Text → Option C) (content : Text → C)
    (bytes : H → C) : Type 0 where
  pub adds :
      (h : H) (w : W) (cid : Text) → (k.add h w).0 ≡ ok cid → content (ipfs_path cid) ≡ bytes h
  pub add_keeps : (h : H) (w : W) (p : Text) → file_at (k.add h w).1 p ≡ file_at w p
  pub copies :
      (src dst : Text) (w : W)
      → (k.cp src dst w).0 ≡ ok tt
      → (p : Text)
      → file_at (k.cp src dst w).1 p ≡ (if text_eq p dst then some (content src) else file_at w p)
  pub removes :
      (path : Text) (w : W)
      → (k.rm path w).0 ≡ ok tt
      → (p : Text) → file_at (k.rm path w).1 p ≡ (if is_within path p then none else file_at w p)
  pub mkdir_keeps : (path : Text) (w : W) (p : Text) → file_at (k.mkdir path w).1 p ≡ file_at w p
  pub open_keeps : (path : Text) (w : W) (p : Text) → file_at (k.open_root path w).1 p ≡ file_at w p

module _ {H : Type 0} where
  unfoldable mutual
    -- The files of a local tree with the paths that they are to have in MFS, in the order of the walk.
    pub files : Text → Text → Forest H → List (Text × H)
    files mfs_path rel empty = []
    files mfs_path rel (entry name tree rest) =
        files_of mfs_path (below rel name) tree ++ files mfs_path rel rest

    pub files_of : Text → Text → Tree H → List (Text × H)
    files_of mfs_path rel (failed e) = []
    files_of mfs_path rel (leaf (ok handle)) = (join_path mfs_path rel, handle) ∷ []
    files_of mfs_path rel (leaf (err e)) = []
    files_of mfs_path rel (branch forest) = files mfs_path rel forest

  abbrev pub later_or : Option H → Option H → Option H
  later_or (some later) earlier = some later
  later_or none earlier = earlier

  -- The file that is to be at a path. A local tree has no two files for one path.
  abbrev pub find_file : Text → List (Text × H) → Option H
  find_file p [] = none
  find_file p ((q, handle) ∷ rest) =
      later_or (find_file p rest) (if text_eq p q then some handle else none)

  pub later_or_assoc : (a b c : Option H) → later_or a (later_or b c) ≡ later_or (later_or a b) c
  later_or_assoc (some x) b c = refl
  later_or_assoc none b c = refl

  pub find_file-append :
      (p : Text) (xs ys : List (Text × H))
      → find_file p (xs ++ ys) ≡ later_or (find_file p ys) (find_file p xs)
  find_file-append p [] ys = elim (find_file p ys) as (λ o. o ≡ later_or o none) [
    | none ↦ refl
    | some x ↦ refl
  ]
  find_file-append p ((q, h) ∷ xs) ys =
      ap (λ o. later_or o (if text_eq p q then some h else none)) (find_file-append p xs ys)
      ∙ sym (later_or_assoc (find_file p ys) (find_file p xs) _)

module _ {H C : Type 0} (bytes : H → C) where
  -- The files over those that were there.
  abbrev pub laid_over : Option H → Option C → Option C
  laid_over none before = before
  laid_over (some handle) before = some (bytes handle)

  laid_over_one :
      (here : Bool) (h : H) (before : Option C)
      → (if here then some (bytes h) else before) ≡ laid_over (if here then some h else none) before
  laid_over_one true h before = refl
  laid_over_one false h before = refl

  laid_over-later_or :
      (a b : Option H) (before : Option C)
      → laid_over (later_or a b) before ≡ laid_over a (laid_over b before)
  laid_over-later_or (some x) b before = refl
  laid_over-later_or none b before = refl

  laid_over-append :
      (p : Text) (xs ys : List (Text × H)) (before : Option C)
      → laid_over (find_file p (xs ++ ys)) before
        ≡ laid_over (find_file p ys) (laid_over (find_file p xs) before)
  laid_over-append p xs ys before =
      rw (find_file-append p xs ys) (laid_over-later_or (find_file p ys) (find_file p xs) before)

module _ {W H C : Type 0} (k : Api W H) (file_at : W → Text → Option C) (content : Text → C)
    (bytes : H → C) (mfs : IsMfs k file_at content bytes) (p : Text) where
  import_file_stores :
      (target : Text) (handle : H) (s : Session W H)
      → (import_file k target (ok handle) s).0 ≡ ok tt
      → file_at (import_file k target (ok handle) s).1.world p
        ≡ (if text_eq p target then some (bytes handle) else file_at s.world p)
  unfolding import_file cp_mfs
  import_file_stores target handle s h =
      let (cid, added, rest, e) =
        bind-ok (or_else (Kubo.add k handle) wrapped)
          (λ cid. or_else (cp_mfs k (ipfs_path cid) target) wrapped) s tt h in
      let w = (k.add handle s.world).1 in
      let answer : (k.add handle s.world).0 ≡ ok cid = map_error-ok _ wrapped cid added in
      let put : (k.cp (ipfs_path cid) target w).0 ≡ ok tt =
        map_error-ok _ wrapped tt (map_error-ok _ wrapped tt rest) in
      ap (λ (r : Result Error Unit × Session W H). file_at r.1.world p) e
      ∙ mfs.copies (ipfs_path cid) target w put p
      ∙ ap (λ c. if text_eq p target then some c else file_at w p)
          (mfs.adds handle s.world cid answer)
      ∙ ap (λ before. if text_eq p target then some (bytes handle) else before)
          (mfs.add_keeps handle s.world p)

  import_file_fails :
      (target : Text) (e : Error) (s : Session W H) → (import_file k target (err e) s).0 ≢ ok tt
  unfolding import_file
  import_file_fails target e s h = cc

  mutual
    unfolding import_entries files mkdir_mfs

    import_entries_store :
        (mfs_path rel : Text) (forest : Forest H) (s : Session W H)
        → (import_entries k mfs_path rel forest s).0 ≡ ok tt
        → file_at (import_entries k mfs_path rel forest s).1.world p
          ≡ laid_over bytes (find_file p (files mfs_path rel forest)) (file_at s.world p)
    import_entries_store mfs_path rel empty s h = refl
    import_entries_store mfs_path rel (entry name tree rest) s h =
        let (_, done, more, e) = bind-ok (import_tree k mfs_path (below rel name) tree) _ s tt h in
        ap (λ (r : Result Error Unit × Session W H). file_at r.1.world p) e
        ∙ import_entries_store mfs_path rel rest _ more
        ∙ ap (laid_over bytes (find_file p (files mfs_path rel rest)))
            (import_tree_stores mfs_path (below rel name) tree s done)
        ∙ sym (
            laid_over-append bytes p (files_of mfs_path (below rel name) tree)
              (files mfs_path rel rest) (file_at s.world p))

    import_tree_stores :
        (mfs_path rel : Text) (tree : Tree H) (s : Session W H)
        → (import_tree k mfs_path rel tree s).0 ≡ ok tt
        → file_at (import_tree k mfs_path rel tree s).1.world p
          ≡ laid_over bytes (find_file p (files_of mfs_path rel tree)) (file_at s.world p)
    import_tree_stores mfs_path rel (failed e) s h = cc
    import_tree_stores mfs_path rel (leaf (ok handle)) s h =
        import_file_stores (join_path mfs_path rel) handle s h
        ∙ laid_over_one bytes (text_eq p (join_path mfs_path rel)) handle (file_at s.world p)
    import_tree_stores mfs_path rel (leaf (err e)) s h =
        absurd (import_file_fails (join_path mfs_path rel) e s h)
    import_tree_stores mfs_path rel (branch forest) s h =
        let (_, made, rest, e) =
          bind-ok (or_else (mkdir_mfs k (join_path mfs_path rel)) wrapped) _ s tt h in
        ap (λ (r : Result Error Unit × Session W H). file_at r.1.world p) e
        ∙ import_entries_store mfs_path rel forest _ rest
        ∙ ap (laid_over bytes (find_file p (files mfs_path rel forest)))
            (mfs.mkdir_keeps (join_path mfs_path rel) s.world p)

  pub import_to_mfs_reads_back :
      (local_path mfs_path : Text) (forest : Forest H) (s : Session W H)
      → ((w : W) → k.tree local_path w ≡ branch forest)
      → (k.rm mfs_path s.world).0 ≡ ok tt
      → (import_to_mfs k local_path mfs_path s).0 ≡ ok tt
      → file_at (import_to_mfs k local_path mfs_path s).1.world p
        ≡ laid_over bytes
            (find_file p (files mfs_path [] forest))
            (if is_within mfs_path p then none else file_at s.world p)
  unfolding import_to_mfs rm_mfs import_root mkdir_mfs
  import_to_mfs_reads_back local_path mfs_path forest s found cleared h =
      let w₁ = (k.rm mfs_path s.world).1 in
      let w₂ = (k.mkdir mfs_path w₁).1 in
      let (_, made, rest, e₁) = bind-ok (or_else (mkdir_mfs k mfs_path) wrapped) _ _ tt h in
      let (_, opened, walked, e₂) =
        bind-ok (or_else (Kubo.open_root k local_path) wrapped) _ _ tt rest in
      let done = map_error-ok _ wrapped tt walked in
      let at_end = λ (r : Result Error Unit × Session W H). file_at r.1.world p in
      ap at_end e₁
      ∙ ap at_end e₂
      ∙ rw (found _) (import_entries_store mfs_path [] forest _ (rw (found _) at done))
      ∙ ap (laid_over bytes (find_file p (files mfs_path [] forest))) (
          mfs.open_keeps local_path w₂ p
          ∙ mfs.mkdir_keeps mfs_path w₁ p
          ∙ mfs.removes mfs_path s.world cleared p)
