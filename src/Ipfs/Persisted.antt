-- ===== src/Ipfs/Persisted.antt =====
-- A directory that was imported to MFS, and is exported to another directory later.
use mathlib.Core.List.{append_assoc}
use mathlib.Core.Path.{ap₂}
use csi_driver_ipfs.Base.{
  ◌≡◌, refl, sym, ap, ◌∙◌, true, Option, none, some, [], ◌∷◌, ◌++◌, ok, err, arith,
}
use csi_driver_ipfs.Text.{Text, text_eq}
use csi_driver_ipfs.Text.Prefix.{has_prefix, has_prefix-append}
use csi_driver_ipfs.MfsPath.{slash}
use csi_driver_ipfs.Node.Content.{join_path}
use csi_driver_ipfs.Ipfs.{export_mfs}
use csi_driver_ipfs.Ipfs.Kubo.{Api, Session, Tree, failed, leaf, branch, Forest, empty, entry}
use csi_driver_ipfs.Ipfs.Import.{below, import_to_mfs}
use csi_driver_ipfs.Ipfs.Import.Stored.{
  is_within, IsMfs, files, files_of, later_or, find_file, find_file-append, laid_over,
  import_to_mfs_reads_back,
}
use csi_driver_ipfs.Ipfs.Import.Targets.{
  IsCanonical, LeadsDown, At, at_root, join_path-LeadsDown, below-LeadsDown, below-At,
}
use csi_driver_ipfs.Ipfs.Import.Isolated.{PlainNames, PlainNamesOf}
use csi_driver_ipfs.Ipfs.Export.Written.{text_eq-append, IsWriter, Resolves, export_mfs_holds}

within_below : (path rel : Text) → is_within path (path ++ slash ∷ rel) ≡ true
within_below path rel = ground (
  arith,
  ap (λ p. has_prefix p (path ++ slash ∷ [])) (append_assoc path (slash ∷ []) rel),
  has_prefix-append (path ++ slash ∷ []) rel,
)

-- A tree has the same files below one directory as below another.
module _ (from to rel : Text) (from_at : IsCanonical from) (to_at : IsCanonical to) where
  target_moved :
      (at : Text)
      → LeadsDown from at
      → LeadsDown to at
      → text_eq (from ++ slash ∷ rel) (join_path from at)
        ≡ text_eq (to ++ slash ∷ rel) (join_path to at)
  target_moved at down to_down =
      rw (join_path-LeadsDown from at from_at down, join_path-LeadsDown to at to_at to_down)
        (text_eq-append from (slash ∷ rel) (slash ∷ at)
          ∙ sym (text_eq-append to (slash ∷ rel) (slash ∷ at)))

  mutual
    unfolding files PlainNames

    files_moved :
        {H : Type 0} (at : Text) (forest : Forest H)
        → At from at
        → At to at
        → PlainNames forest
        → find_file (from ++ slash ∷ rel) (files from at forest)
          ≡ find_file (to ++ slash ∷ rel) (files to at forest)
    files_moved at empty stands to_stands plain = refl
    files_moved at (entry name tree rest) stands to_stands (name_plain, tree_plain, rest_plain) =
        find_file-append (from ++ slash ∷ rel) (files_of from (below at name) tree)
          (files from at rest)
        ∙ ap₂ later_or (files_moved at rest stands to_stands rest_plain) (
            tree_moved (below at name) tree (below-LeadsDown from at name from_at stands name_plain)
              (below-LeadsDown to at name to_at to_stands name_plain)
              (below-At from at name from_at stands name_plain)
              (below-At to at name to_at to_stands name_plain) tree_plain)
        ∙ sym (
            find_file-append (to ++ slash ∷ rel) (files_of to (below at name) tree)
              (files to at rest))

    tree_moved :
        {H : Type 0} (at : Text) (tree : Tree H)
        → LeadsDown from at
        → LeadsDown to at
        → At from at
        → At to at
        → PlainNamesOf tree
        → find_file (from ++ slash ∷ rel) (files_of from at tree)
          ≡ find_file (to ++ slash ∷ rel) (files_of to at tree)
    tree_moved at (failed e) down to_down stands to_stands plain = refl
    tree_moved at (leaf (ok handle)) down to_down stands to_stands plain =
        rw (target_moved at down to_down) refl
    tree_moved at (leaf (err e)) down to_down stands to_stands plain = refl
    tree_moved at (branch forest) down to_down stands to_stands plain =
        files_moved at forest stands to_stands plain

later_or-none : {C : Type 0} (o : Option C) → later_or o none ≡ o
later_or-none (some x) = refl
later_or-none none = refl

module _ {W H C : Type 0} (k : Api W H) (file_at local_at : W → Text → Option C)
    (content : Text → C) (bytes : H → C) (held : H → Text → Option C) where
  -- A local directory with plain names is imported into a cleaned MFS path, where the removal of the
  -- old tree and the import succeed; later the path is exported into a local directory, whose path
  -- is cleaned too, and the export succeeds. Where kubo's calls and the writes do what they
  -- document, kubo resolves the path to its content at the time of the export, and the file at a
  -- relative path was neither changed in MFS in between nor there in the new directory: then the new
  -- directory has at this relative path the content of the file that the tree of the old one has
  -- there, and no file where that has none.
  pub export_mfs_restores :
      (mfs : IsMfs k file_at content bytes)
      → (is : IsWriter k local_at held)
      → (staging path dest rel : Text) (forest : Forest H) (s t : Session W H) → IsCanonical path
      → IsCanonical dest
      → ((w : W) → k.tree staging w ≡ branch forest)
      → PlainNames forest
      → (k.rm path s.world).0 ≡ ok tt
      → (import_to_mfs k staging path s).0 ≡ ok tt
      → file_at t.world (path ++ slash ∷ rel)
        ≡ file_at (import_to_mfs k staging path s).1.world (path ++ slash ∷ rel)
      → local_at t.world (dest ++ slash ∷ rel) ≡ none
      → Resolves k file_at held path rel t.world
      → (export_mfs k path dest t).0 ≡ ok tt
      → local_at (export_mfs k path dest t).1.world (dest ++ slash ∷ rel)
        ≡ laid_over bytes (find_file (dest ++ slash ∷ rel) (files dest [] forest)) none
  export_mfs_restores mfs is staging path dest rel forest s t at dest_at tree plain cleared imported
        kept clean resolves exported =
      export_mfs_holds k local_at held is dest rel dest_at file_at path t resolves exported
      ∙ rw clean (later_or-none (file_at t.world (path ++ slash ∷ rel)))
      ∙ kept
      ∙ import_to_mfs_reads_back k file_at content bytes mfs (path ++ slash ∷ rel) staging path
          forest s tree cleared imported
      ∙ rw
          (
            within_below path rel,
            files_moved path dest rel at dest_at [] forest (at_root refl) (at_root refl) plain,
          )
          refl
