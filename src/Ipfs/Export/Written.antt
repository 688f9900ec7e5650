-- ===== src/Ipfs/Export/Written.antt =====
-- What the local files hold after an export, where a write does what it documents.
use mathlib.Core.List.{append_assoc}
use mathlib.Core.Path.{ap₂}
use csi_driver_ipfs.Base.{
  ◌≡◌, refl, sym, ap, ◌∙◌, Option, none, List, [], ◌∷◌, ◌++◌, Result, ok, All, arith, if◌then◌else◌,
}
use csi_driver_ipfs.Base.Exec.{or_else, map_error-ok, bind-ok}
use csi_driver_ipfs.Text.{Text, text_eq}
use csi_driver_ipfs.Text.Prefix.{has_prefix, strip}
use csi_driver_ipfs.Errors.{Error, wrapped}
use csi_driver_ipfs.MfsPath.{slash}
use csi_driver_ipfs.MfsPath.Resolve.{IsPlain}
use csi_driver_ipfs.Node.Content.{join_path}
use csi_driver_ipfs.Ipfs.{
  parse_cid_path, write_entries, iterated, write_node_to_dir, get_cid_content, stat_mfs, export_mfs,
}
use csi_driver_ipfs.Ipfs.Kubo
use csi_driver_ipfs.Ipfs.Kubo.{Api, Session, Node, directory, MfsStat, lift}
use csi_driver_ipfs.Ipfs.Export.{iterated_keeps}
use csi_driver_ipfs.Ipfs.Import.Stored.{is_within, later_or, later_or_assoc}
use csi_driver_ipfs.Ipfs.Import.Targets.{IsCanonical, join_path-LeadsDown, name-LeadsDown}

pub text_eq-append : (a x y : Text) → text_eq (a ++ x) (a ++ y) ≡ text_eq x y
unfolding text_eq
text_eq-append [] x y = refl
text_eq-append (c ∷ a) x y = ground (arith, text_eq-append a x y)

has_prefix-append_both : (a x y : Text) → has_prefix (a ++ x) (a ++ y) ≡ has_prefix x y
unfolding has_prefix
has_prefix-append_both [] x y = refl
has_prefix-append_both (c ∷ a) x y = ground (arith, has_prefix-append_both a x y)

strip-append_both : (a x y : Text) → strip (a ++ x) (a ++ y) ≡ strip x y
unfolding strip
strip-append_both [] x y = refl
strip-append_both (c ∷ a) x y = strip-append_both a x y

module _ {H C : Type 0} (held : H → Text → Option C) where
  -- The file that an entry of a directory holds at a path relative to the directory; `held` has the
  -- files of a handle by what follows the entry's name, nothing for the entry itself.
  abbrev pub at_entry : Text → H → Text → Option C
  at_entry name child rel = if is_within name rel then held child (strip rel name) else none

  -- The file that the entries of a directory hold at a relative path.
  abbrev pub reads : List (Text × H) → Text → Option C
  reads [] rel = none
  reads ((name, child) ∷ entries) rel = later_or (reads entries rel) (at_entry name child rel)

-- What is relied on of the writes: one that succeeds has put what the handle holds at its target,
-- where there was nothing, and no other file is touched; requests to kubo touch no local file.
pub record IsWriter {W H C : Type 0} (k : Api W H) (local_at : W → Text → Option C)
    (held : H → Text → Option C) : Type 0 where
  pub writes :
      (h : H) (target : Text) (w : W)
      → (k.write_to h target w).0 ≡ ok tt
      → (q : Text)
      → local_at (k.write_to h target w).1 q
        ≡ later_or (if is_within target q then held h (strip q target) else none) (local_at w q)
  pub stat_keeps : (path : Text) (w : W) (q : Text) → local_at (k.stat path w).1 q ≡ local_at w q
  pub get_keeps : (path : Text) (w : W) (q : Text) → local_at (k.get path w).1 q ≡ local_at w q

-- Kubo resolves the path of a directory of MFS to a node that holds the file of MFS at a relative
-- path, and that has plain names.
unfoldable pub Resolves :
    {W H C : Type 0}
    → Api W H
    → (W → Text → Option C)
    → (H → Text → Option C)
    → Text
    → Text
    → W
    → Type 0
Resolves {H = H} k file_at held path rel w =
    (stat : MfsStat) (cid_path : Text) (node : Node H)
    → (k.stat path w).0 ≡ ok stat
    → k.decode_cid stat.hash ≡ ok cid_path
    → (k.get cid_path (k.stat path w).1).0 ≡ ok node
    → (entries : List (Text × H)) × (broken : Option Error) × (node ≡ directory entries broken)
      × All (λ (e : Text × H). IsPlain e.0) entries
      × (reads held entries rel ≡ file_at w (path ++ slash ∷ rel))

-- What is within an entry of a directory.
pub is_within-join_path :
    (dest name rel : Text)
    → IsCanonical dest
    → IsPlain name
    → is_within (join_path dest name) (dest ++ slash ∷ rel) ≡ is_within name rel
unfolding text_eq has_prefix
is_within-join_path dest name rel at plain =
    rw
      (
        join_path-LeadsDown dest name at (name-LeadsDown dest name at plain),
        append_assoc,
        text_eq-append,
        has_prefix-append_both,
      )
      refl

module _ {W H C : Type 0} (k : Api W H) (local_at : W → Text → Option C)
    (held : H → Text → Option C) (is : IsWriter k local_at held) (dest rel : Text)
    (at : IsCanonical dest) where
  abbrev below_dest : Text
  below_dest = dest ++ slash ∷ rel

  at_target :
      (name : Text) (child : H)
      → IsPlain name
      → (if is_within (join_path dest name) below_dest
          then held child (strip below_dest (join_path dest name))
          else none)
        ≡ at_entry held name child rel
  unfolding strip
  at_target name child plain =
      rw
        (
          is_within-join_path dest name rel at plain,
          join_path-LeadsDown dest name at (name-LeadsDown dest name at plain),
          strip-append_both,
        )
        refl

  write_entries_hold :
      (entries : List (Text × H)) (s : Session W H)
      → All (λ (e : Text × H). IsPlain e.0) entries
      → (write_entries k dest entries s).0 ≡ ok tt
      → local_at (write_entries k dest entries s).1.world below_dest
        ≡ later_or (reads held entries rel) (local_at s.world below_dest)
  unfolding write_entries
  write_entries_hold [] s plain h = refl
  write_entries_hold ((name, child) ∷ entries) s (name_plain, plain) h =
      let (_, done, more, e) =
        bind-ok (or_else (Kubo.write_to k child (join_path dest name)) wrapped)
          (λ _. write_entries k dest entries) s tt h in
      ap (λ r. local_at r.1.world below_dest) e
      ∙ write_entries_hold entries _ plain more
      ∙ ap (later_or (reads held entries rel)) (
          is.writes child (join_path dest name) s.world (map_error-ok _ wrapped tt done) below_dest
          ∙ ap (λ o. later_or o (local_at s.world below_dest)) (at_target name child name_plain))
      ∙ later_or_assoc (reads held entries rel) (at_entry held name child rel)
          (local_at s.world below_dest)

  write_node_holds :
      (entries : List (Text × H)) (broken : Option Error) (s : Session W H)
      → All (λ (e : Text × H). IsPlain e.0) entries
      → (write_node_to_dir k (directory entries broken) dest s).0 ≡ ok tt
      → local_at (write_node_to_dir k (directory entries broken) dest s).1.world below_dest
        ≡ later_or (reads held entries rel) (local_at s.world below_dest)
  unfolding write_node_to_dir
  write_node_holds entries broken s plain h =
      let (_, done, _, e) =
        bind-ok (write_entries k dest entries) (λ _. iterated k broken) s tt h in
      ap (λ r. local_at r.1.world below_dest) e
      ∙ ap (λ t. local_at t.world below_dest) (iterated_keeps k broken _)
      ∙ write_entries_hold entries s plain done

  -- The local file at a path below the directory of an export that succeeds, of a directory of MFS.
  pub export_mfs_holds :
      (file_at : W → Text → Option C) (path : Text) (s : Session W H)
      → Resolves k file_at held path rel s.world
      → (export_mfs k path dest s).0 ≡ ok tt
      → local_at (export_mfs k path dest s).1.world below_dest
        ≡ later_or (file_at s.world (path ++ slash ∷ rel)) (local_at s.world below_dest)
  unfolding export_mfs stat_mfs get_cid_content parse_cid_path Resolves
  export_mfs_holds file_at path s resolves h =
      let (stat, answered, rest, e) = bind-ok (or_else (stat_mfs k path) wrapped) _ s tt h in
      let found = map_error-ok _ wrapped stat (map_error-ok _ wrapped stat answered) in
      let (cid_path, parsed, more, e₁) =
        bind-ok (or_else (parse_cid_path k stat.hash) wrapped) _ _ tt
          (map_error-ok _ wrapped tt rest) in
      let (node, got, wrote, e₂) = bind-ok (or_else (Kubo.get k cid_path) wrapped) _ _ tt more in
      let (entries, broken, shape, plain, same) =
        resolves stat cid_path node found
          (map_error-ok _ wrapped cid_path (map_error-ok _ wrapped cid_path parsed))
          (map_error-ok _ wrapped node got) in
      let written =
        write_node_holds entries broken (Kubo.get k cid_path (Kubo.stat k path s).1).1 plain (
          ap (λ n. (write_node_to_dir k n dest (Kubo.get k cid_path (Kubo.stat k path s).1).1).0)
            (sym shape)
          ∙ map_error-ok _ wrapped tt wrote) in
      let at_end = λ (r : Result Error Unit × Session W H). local_at r.1.world below_dest in
      ap at_end e
      ∙ ap at_end e₁
      ∙ ap at_end e₂
      ∙ ap
          (λ n.
            local_at
              (write_node_to_dir k n dest (Kubo.get k cid_path (Kubo.stat k path s).1).1).1.world
              below_dest)
          shape
      ∙ written
      ∙ ap₂ later_or same (
          is.get_keeps cid_path (k.stat path s.world).1 below_dest
          ∙ is.stat_keeps path s.world below_dest)
