-- ===== src/Ipfs/Import/Isolated.antt =====
-- An import touches no file outside its target, whatever it answers.
use csi_driver_ipfs.Base.{◌≡◌, refl, ◌∙◌, true, false, Option, [], ◌∷◌, ◌++◌, Result, arith}
use csi_driver_ipfs.Base.Exec.{or_else, bind-keeps}
use csi_driver_ipfs.Text.{Text, text_eq_iff}
use csi_driver_ipfs.Text.Prefix.{has_prefix}
use csi_driver_ipfs.Errors.{Error, wrapped}
use csi_driver_ipfs.MfsPath.{slash}
use csi_driver_ipfs.MfsPath.Resolve.{IsPlain}
use csi_driver_ipfs.Node.Content.{join_path}
use csi_driver_ipfs.Ipfs.{mkdir_mfs, rm_mfs, cp_mfs}
use csi_driver_ipfs.Ipfs.Kubo
use csi_driver_ipfs.Ipfs.Kubo.{Api, Session, Tree, failed, leaf, branch, Forest, empty, entry, lift}
use csi_driver_ipfs.Ipfs.Import.{
  below, ipfs_path, import_file, import_entries, import_tree, import_root, import_to_mfs,
}
use csi_driver_ipfs.Ipfs.Import.Stored.{is_within}
use csi_driver_ipfs.Ipfs.Import.Targets.{
  IsCanonical, LeadsDown, At, at_root, join_path-within, below-LeadsDown, below-At,
}

has_prefix_trans :
    (a b c : Text) → has_prefix b a ≡ true → has_prefix c b ≡ true → has_prefix c a ≡ true
unfolding has_prefix
has_prefix_trans [] b c h k = ground arith
has_prefix_trans (x ∷ a) [] c h k = ground arith
has_prefix_trans (x ∷ a) (y ∷ b) [] h k = ground arith
has_prefix_trans (x ∷ a) (y ∷ b) (z ∷ c) h k = ground (arith, has_prefix_trans a b c)

has_prefix_longer : (a b more : Text) → has_prefix b a ≡ true → has_prefix (b ++ more) a ≡ true
unfolding has_prefix
has_prefix_longer [] b more h = ground arith
has_prefix_longer (x ∷ a) [] more h = ground arith
has_prefix_longer (x ∷ a) (y ∷ b) more h = ground (arith, has_prefix_longer a b more)

-- Outside of a path is outside of what is below it.
outside :
    (path target p : Text)
    → has_prefix target (path ++ slash ∷ []) ≡ true
    → is_within path p ≡ false
    → is_within target p ≡ false
outside path target p inside away = ground (
  arith,
  text_eq_iff p target,
  inside,
  has_prefix_trans (path ++ slash ∷ []) (target ++ slash ∷ []) p
      (has_prefix_longer (path ++ slash ∷ []) target (slash ∷ []) inside),
)

-- What is relied on of kubo: a call touches the files at its own path and below it, and no others,
-- also where it fails; adding a file and opening a directory touch none.
pub record IsLocal {W H C : Type 0} (k : Api W H) (file_at : W → Text → Option C) : Type 0 where
  pub add_keeps : (h : H) (w : W) (p : Text) → file_at (k.add h w).1 p ≡ file_at w p
  pub open_keeps : (path : Text) (w : W) (p : Text) → file_at (k.open_root path w).1 p ≡ file_at w p
  pub mkdir_keeps : (path : Text) (w : W) (p : Text) → file_at (k.mkdir path w).1 p ≡ file_at w p
  pub cp_local :
      (src dst : Text) (w : W) (p : Text)
      → is_within dst p ≡ false
      → file_at (k.cp src dst w).1 p ≡ file_at w p
  pub rm_local :
      (path : Text) (w : W) (p : Text)
      → is_within path p ≡ false
      → file_at (k.rm path w).1 p ≡ file_at w p

-- The names of a local tree, which are plain.
unfoldable mutual
  pub PlainNames : {H : Type 0} → Forest H → Type 0
  PlainNames empty = Unit
  PlainNames (entry name tree rest) = IsPlain name × PlainNamesOf tree × PlainNames rest

  pub PlainNamesOf : {H : Type 0} → Tree H → Type 0
  PlainNamesOf (failed e) = Unit
  PlainNamesOf (leaf opened) = Unit
  PlainNamesOf (branch forest) = PlainNames forest

module _ {W H C : Type 0} (k : Api W H) (file_at : W → Text → Option C) (is : IsLocal k file_at)
    (p : Text) where
  abbrev view : Session W H → Option C
  view s = file_at s.world p

  import_file-keeps :
      (target : Text) (opened : Result Error H) (s : Session W H)
      → is_within target p ≡ false
      → view (import_file k target opened s).1 ≡ view s
  unfolding import_file cp_mfs
  import_file-keeps target opened s away =
      bind-keeps view (or_else (lift opened) wrapped) _ s refl (λ handle t.
        bind-keeps view (or_else (Kubo.add k handle) wrapped) _ t (is.add_keeps handle t.world p)
          (λ cid u. is.cp_local (ipfs_path cid) target u.world p away))

  module _ (mfs_path : Text) (at : IsCanonical mfs_path) (away : is_within mfs_path p ≡ false) where
    target_away :
        (rel : Text) → LeadsDown mfs_path rel → is_within (join_path mfs_path rel) p ≡ false
    target_away rel down =
        outside mfs_path (join_path mfs_path rel) p (join_path-within mfs_path rel at down) away

    mutual
      unfolding import_entries mkdir_mfs PlainNames

      import_entries-keeps :
          (rel : Text) (forest : Forest H) (s : Session W H)
          → At mfs_path rel
          → PlainNames forest
          → view (import_entries k mfs_path rel forest s).1 ≡ view s
      import_entries-keeps rel empty s stands plain = refl
      import_entries-keeps rel (entry name tree rest) s stands
            (name_plain, tree_plain, rest_plain) =
          bind-keeps view (import_tree k mfs_path (below rel name) tree) _ s
            (import_tree-keeps (below rel name) tree s
              (below-LeadsDown mfs_path rel name at stands name_plain)
              (below-At mfs_path rel name at stands name_plain) tree_plain)
            (λ _ t. import_entries-keeps rel rest t stands rest_plain)

      import_tree-keeps :
          (rel : Text) (tree : Tree H) (s : Session W H)
          → LeadsDown mfs_path rel
          → At mfs_path rel
          → PlainNamesOf tree
          → view (import_tree k mfs_path rel tree s).1 ≡ view s
      import_tree-keeps rel (failed e) s down stands plain = refl
      import_tree-keeps rel (leaf opened) s down stands plain =
          import_file-keeps (join_path mfs_path rel) opened s (target_away rel down)
      import_tree-keeps rel (branch forest) s down stands plain =
          bind-keeps view (or_else (mkdir_mfs k (join_path mfs_path rel)) wrapped) _ s
            (is.mkdir_keeps (join_path mfs_path rel) s.world p)
            (λ _ t. import_entries-keeps rel forest t stands plain)

    import_root-keeps :
        (tree : Tree H) (s : Session W H)
        → PlainNamesOf tree
        → view (import_root k mfs_path tree s).1 ≡ view s
    unfolding import_root PlainNames
    import_root-keeps (failed e) s plain = refl
    import_root-keeps (leaf opened) s plain = refl
    import_root-keeps (branch forest) s plain =
        import_entries-keeps [] forest s (at_root refl) plain

    -- An import into a cleaned MFS path other than `/`, of any local tree with plain names, over a
    -- kubo whose calls touch only what is at their path: whatever it answers, and at whichever call
    -- it fails, the file at a path outside of the target is what it was before.
    pub import_to_mfs_isolated :
        (local_path : Text) (s : Session W H)
        → ((w : W) → PlainNamesOf (k.tree local_path w))
        → file_at (import_to_mfs k local_path mfs_path s).1.world p ≡ file_at s.world p
    unfolding import_to_mfs mkdir_mfs rm_mfs
    import_to_mfs_isolated local_path s plain =
        bind-keeps view (or_else (mkdir_mfs k mfs_path) wrapped) _ _
          (is.mkdir_keeps mfs_path (k.rm mfs_path s.world).1 p)
          (λ _ t.
            bind-keeps view (or_else (Kubo.open_root k local_path) wrapped) _ t
              (is.open_keeps local_path t.world p)
              (λ _ u. import_root-keeps (k.tree local_path u.world) u (plain u.world)))
        ∙ is.rm_local mfs_path s.world p away
