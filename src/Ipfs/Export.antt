-- ===== src/Ipfs/Export.antt =====
-- What a download and an export write.
pub mod Written
use csi_driver_ipfs.Base.{◌≡◌, refl, ap, ◌∙◌, Option, none, some, List, [], ◌∷◌, ok, err_ne_ok}
use csi_driver_ipfs.Base.Exec.{or_else, map_error-ok, bind-ok}
use csi_driver_ipfs.Text.{Text, lit}
use csi_driver_ipfs.Errors.{Error, wrapped}
use csi_driver_ipfs.Node.Content.{join_path}
use csi_driver_ipfs.Ipfs.{
  parse_cid_path, write_entries, iterated, write_node_to_dir, get_cid_content, stat_mfs, export_mfs,
}
use csi_driver_ipfs.Ipfs.Kubo
use csi_driver_ipfs.Ipfs.Kubo.{
  Api, Session, Request, Node, directory, file, other, MfsStat, wrote, got, stated, lift,
}

module _ {H : Type 0} where
  -- The writes of the entries of a directory, added to the requests so far.
  abbrev pub entries_written : Text → List (Text × H) → List (Request H) → List (Request H)
  entries_written dest [] requests = requests
  entries_written dest ((name, child) ∷ entries) requests =
      entries_written dest entries (wrote child (join_path dest name) (ok tt) ∷ requests)

  -- The writes of a node: each entry of a directory under its name, and a file as `data`.
  abbrev pub node_written : Text → Node H → List (Request H) → List (Request H)
  node_written dest (directory entries broken) requests = entries_written dest entries requests
  node_written dest (file handle) requests =
      wrote handle (join_path dest (lit "data")) (ok tt) ∷ requests
  node_written dest other requests = requests

  -- A node that is written whole: a directory whose iteration did not end in an error, or a file.
  pub data IsWhole : Node H → Type 0 where
    whole_directory : (entries : List (Text × H)) → IsWhole (directory entries none)
    whole_file : (handle : H) → IsWhole (file handle)

module _ {W H : Type 0} (k : Api W H) where
  write_entries_ok :
      (dest : Text) (entries : List (Text × H)) (s : Session W H)
      → (write_entries k dest entries s).0 ≡ ok tt
      → (write_entries k dest entries s).1.requests ≡ entries_written dest entries s.requests
  unfolding write_entries
  write_entries_ok dest [] s h = refl
  write_entries_ok dest ((name, child) ∷ entries) s h =
      let run =
        bind-ok (or_else (Kubo.write_to k child (join_path dest name)) wrapped)
          (λ _. write_entries k dest entries) s tt h in
      ap (λ r. r.1.requests) run.3
      ∙ write_entries_ok dest entries _ run.2
      ∙ ap (λ r. entries_written dest entries (wrote child (join_path dest name) r ∷ s.requests))
          (map_error-ok _ wrapped tt run.1)

  pub iterated_keeps : (broken : Option Error) (s : Session W H) → (iterated k broken s).1 ≡ s
  iterated_keeps none s = refl
  iterated_keeps (some e) s = refl

  write_node_ok :
      (node : Node H) (dest : Text) (s : Session W H)
      → (write_node_to_dir k node dest s).0 ≡ ok tt
      → IsWhole node
        × ((write_node_to_dir k node dest s).1.requests ≡ node_written dest node s.requests)
  unfolding write_node_to_dir
  write_node_ok (directory entries none) dest s h =
      let run = bind-ok (write_entries k dest entries) (λ _. iterated k none) s tt h in
      (
        whole_directory entries,
        ap (λ r. r.1.requests) run.3 ∙ write_entries_ok dest entries s run.1,
      )
  write_node_ok (directory entries (some e)) dest s h =
      let run = bind-ok (write_entries k dest entries) (λ _. iterated k (some e)) s tt h in
      absurd (err_ne_ok run.2)
  write_node_ok (file handle) dest s h =
      (whole_file handle, ap (λ r. wrote handle (join_path dest (lit "data")) r ∷ s.requests) h)
  write_node_ok other dest s h = cc

  get_cid_content_ok :
      (cid dest : Text) (s : Session W H)
      → (get_cid_content k cid dest s).0 ≡ ok tt
      → (path : Text) × (node : Node H) × (k.decode_cid cid ≡ ok path)
        × IsWhole node
        × ((get_cid_content k cid dest s).1.requests
            ≡ node_written dest node (got path (ok node) ∷ s.requests))
  unfolding get_cid_content parse_cid_path
  get_cid_content_ok cid dest s h =
      let parsed = bind-ok (or_else (parse_cid_path k cid) wrapped) _ s tt h in
      let found = bind-ok (or_else (Kubo.get k parsed.0) wrapped) _ _ tt parsed.2 in
      let written = write_node_ok found.0 dest _ (map_error-ok _ wrapped tt found.2) in
      (
        parsed.0,
        found.0,
        map_error-ok _ wrapped parsed.0 (map_error-ok _ wrapped parsed.0 parsed.1),
        written.0,
        ap (λ r. r.1.requests) parsed.3
            ∙ ap (λ r. r.1.requests) found.3
            ∙ written.1
            ∙ ap (λ r. node_written dest found.0 (got parsed.0 r ∷ s.requests))
                (map_error-ok _ wrapped found.0 found.1),
      )

  -- An export that succeeds: the path was resolved, the node of the CID that it resolved to was
  -- fetched, its iteration did not end in an error, and all that it holds was written into the
  -- directory: each entry of a directory once and under its name, and a single file under the name
  -- `data`. A node of another kind is not exported. There was no other request.
  pub export_mfs_writes :
      (path local : Text) (s : Session W H)
      → (export_mfs k path local s).0 ≡ ok tt
      → (stat : MfsStat) × (cid_path : Text) × (node : Node H) × (k.decode_cid stat.hash
          ≡ ok cid_path)
        × IsWhole node
        × ((export_mfs k path local s).1.requests
            ≡ node_written local node (got cid_path (ok node) ∷ stated path (ok stat) ∷ s.requests))
  unfolding export_mfs stat_mfs
  export_mfs_writes path local s h =
      let resolved = bind-ok (or_else (stat_mfs k path) wrapped) _ s tt h in
      let answer =
        map_error-ok _ wrapped resolved.0 (map_error-ok _ wrapped resolved.0 resolved.1) in
      let fetched =
        get_cid_content_ok resolved.0.hash local _ (map_error-ok _ wrapped tt resolved.2) in
      (
        resolved.0,
        fetched.0,
        fetched.1,
        fetched.2,
        fetched.3,
        ap (λ r. r.1.requests) resolved.3
            ∙ fetched.4
            ∙ ap
                (λ r.
                  node_written local fetched.1
                    (got fetched.0 (ok fetched.1) ∷ stated path r ∷ s.requests))
                answer,
      )
