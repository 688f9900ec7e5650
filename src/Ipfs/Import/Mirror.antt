-- ===== src/Ipfs/Import/Mirror.antt =====
-- An import that succeeds has mirrored the whole local tree, entry by entry.
use csi_driver_ipfs.Base.{◌≡◌, ◌≢◌, refl, ap, ◌∙◌, List, [], ◌∷◌, Result, ok, err, if◌then◌else◌}
use csi_driver_ipfs.Base.Exec.{or_else, map_error-ok, bind-ok}
use csi_driver_ipfs.Text.{Text, text_eq, text_eq_refl}
use csi_driver_ipfs.Errors.{Error, wrapped}
use csi_driver_ipfs.Node.Content.{join_path}
use csi_driver_ipfs.Ipfs.{mkdir_mfs, rm_mfs, cp_mfs}
use csi_driver_ipfs.Ipfs.Kubo
use csi_driver_ipfs.Ipfs.Kubo.{
  Api, Session, Request, added, copied, made, removed, Tree, failed, leaf, branch, Forest, empty,
  entry,
}
use csi_driver_ipfs.Ipfs.Import.{
  below, ipfs_path, import_file, import_entries, import_tree, import_root, import_to_mfs,
}

-- What the requests put into the MFS tree: a directory, or a file's content at a path.
pub data Item (H : Type 0) : Type 0 where
  cleared : Text → Item H
  folder : Text → Item H
  content : H → Text → Item H

module _ {H : Type 0} where
  -- The changes of the MFS tree that succeeded, the last one first. A content is put in place by
  -- adding it and copying from the CID that the add has answered.
  abbrev pub placed : List (Request H) → List (Item H)
  placed [] = []
  placed (made path (ok _) ∷ requests) = folder path ∷ placed requests
  placed (removed path (ok _) ∷ requests) = cleared path ∷ placed requests
  placed (copied src dst (ok _) ∷ added handle (ok cid) ∷ requests) =
      if text_eq src (ipfs_path cid) then content handle dst ∷ placed requests else placed requests
  placed (_ ∷ requests) = placed requests

  -- The removal of a path, put before the items that are there where it has succeeded.
  abbrev pub removal : Text → Result Error Unit → List (Item H) → List (Item H)
  removal path (ok _) items = cleared path ∷ items
  removal path (err e) items = items

  placed-removed :
      (path : Text) (r : Result Error Unit) (requests : List (Request H))
      → placed (removed path r ∷ requests) ≡ removal path r (placed requests)
  placed-removed path (ok _) requests = refl
  placed-removed path (err e) requests = refl

  unfoldable mutual
    -- The items of a local tree, put before those that are there.
    pub layout : Text → Text → Forest H → List (Item H) → List (Item H)
    layout mfs_path rel empty items = items
    layout mfs_path rel (entry name tree rest) items =
        layout mfs_path rel rest (layout_tree mfs_path (below rel name) tree items)

    pub layout_tree : Text → Text → Tree H → List (Item H) → List (Item H)
    layout_tree mfs_path rel (failed e) items = items
    layout_tree mfs_path rel (leaf (ok handle)) items =
        content handle (join_path mfs_path rel) ∷ items
    layout_tree mfs_path rel (leaf (err e)) items = items
    layout_tree mfs_path rel (branch forest) items =
        layout mfs_path rel forest (folder (join_path mfs_path rel) ∷ items)

module _ {W H : Type 0} (k : Api W H) where
  import_file_ok :
      (target : Text) (handle : H) (s : Session W H)
      → (import_file k target (ok handle) s).0 ≡ ok tt
      → placed (import_file k target (ok handle) s).1.requests
        ≡ content handle target ∷ placed s.requests
  unfolding import_file cp_mfs
  import_file_ok target handle s h =
      let run =
        bind-ok (or_else (Kubo.add k handle) wrapped)
          (λ cid. or_else (cp_mfs k (ipfs_path cid) target) wrapped) s tt h in
      let answer : (k.add handle s.world).0 ≡ ok run.0 = map_error-ok _ wrapped run.0 run.1 in
      let put = map_error-ok _ wrapped tt (map_error-ok _ wrapped tt run.2) in
      ap (λ r. placed r.1.requests) run.3
      ∙ ap
          (λ r. placed (
            copied (ipfs_path run.0) target r ∷ added handle (k.add handle s.world).0 ∷ s.requests))
          put
      ∙ ap (λ r. placed (copied (ipfs_path run.0) target (ok tt) ∷ added handle r ∷ s.requests))
          answer
      ∙ rw (text_eq_refl (ipfs_path run.0)) refl

  import_file_fails :
      (target : Text) (e : Error) (s : Session W H) → (import_file k target (err e) s).0 ≢ ok tt
  unfolding import_file
  import_file_fails target e s h = cc

  mkdir_ok :
      (path : Text) (s : Session W H)
      → (mkdir_mfs k path s).0 ≡ ok tt
      → placed (mkdir_mfs k path s).1.requests ≡ folder path ∷ placed s.requests
  unfolding mkdir_mfs
  mkdir_ok path s h = ap (λ r. placed (made path r ∷ s.requests)) (map_error-ok _ wrapped tt h)

  mutual
    unfolding import_entries layout

    import_entries_ok :
        (mfs_path rel : Text) (forest : Forest H) (s : Session W H)
        → (import_entries k mfs_path rel forest s).0 ≡ ok tt
        → placed (import_entries k mfs_path rel forest s).1.requests
          ≡ layout mfs_path rel forest (placed s.requests)
    import_entries_ok mfs_path rel empty s h = refl
    import_entries_ok mfs_path rel (entry name tree rest) s h =
        let first = bind-ok (import_tree k mfs_path (below rel name) tree) _ s tt h in
        ap (λ r. placed r.1.requests) first.3
        ∙ import_entries_ok mfs_path rel rest _ first.2
        ∙ ap (layout mfs_path rel rest) (import_tree_ok mfs_path (below rel name) tree s first.1)

    import_tree_ok :
        (mfs_path rel : Text) (tree : Tree H) (s : Session W H)
        → (import_tree k mfs_path rel tree s).0 ≡ ok tt
        → placed (import_tree k mfs_path rel tree s).1.requests
          ≡ layout_tree mfs_path rel tree (placed s.requests)
    import_tree_ok mfs_path rel (failed e) s h = cc
    import_tree_ok mfs_path rel (leaf (ok handle)) s h =
        import_file_ok (join_path mfs_path rel) handle s h
    import_tree_ok mfs_path rel (leaf (err e)) s h =
        absurd (import_file_fails (join_path mfs_path rel) e s h)
    import_tree_ok mfs_path rel (branch forest) s h =
        let first = bind-ok (or_else (mkdir_mfs k (join_path mfs_path rel)) wrapped) _ s tt h in
        ap (λ r. placed r.1.requests) first.3
        ∙ import_entries_ok mfs_path rel forest _ first.2
        ∙ ap (layout mfs_path rel forest)
            (mkdir_ok (join_path mfs_path rel) s (map_error-ok _ wrapped tt first.1))

  -- An import of a local directory that succeeds: the path was cleared if its removal succeeded, and
  -- not otherwise; then it was made, and every directory and file of the local tree was put in place
  -- below it, each once and a directory before what it holds; a file's content is copied from the
  -- CID that adding it has answered.
  pub import_to_mfs_mirrors :
      (local_path mfs_path : Text) (forest : Forest H) (s : Session W H)
      → ((w : W) → k.tree local_path w ≡ branch forest)
      → (import_to_mfs k local_path mfs_path s).0 ≡ ok tt
      → placed (import_to_mfs k local_path mfs_path s).1.requests
        ≡ layout mfs_path [] forest
            (folder mfs_path ∷ removal mfs_path (k.rm mfs_path s.world).0 (placed s.requests))
  unfolding import_to_mfs rm_mfs import_root
  import_to_mfs_mirrors local_path mfs_path forest s found h =
      let dir = bind-ok (or_else (mkdir_mfs k mfs_path) wrapped) _ _ tt h in
      let root = bind-ok (or_else (Kubo.open_root k local_path) wrapped) _ _ tt dir.2 in
      let walked = map_error-ok _ wrapped tt root.2 in
      ap (λ r. placed r.1.requests) dir.3
      ∙ ap (λ r. placed r.1.requests) root.3
      ∙ rw (found _) (import_entries_ok mfs_path [] forest _ (rw (found _) at walked))
      ∙ ap (layout mfs_path [] forest) (
          mkdir_ok mfs_path _ (map_error-ok _ wrapped tt dir.1)
          ∙ ap (λ items. folder mfs_path ∷ items)
              (placed-removed mfs_path (k.rm mfs_path s.world).0 s.requests))
