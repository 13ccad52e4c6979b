-- ===== src/Storage/Disk/Group.antt =====
-- The group that the store gives a volume's files to.
use csi_runtime.Base.{
  ap, ◌∙◌, ◌≤◌, String, ◌≡◌, refl, [], ◌∷◌, Option, none, some, Result, ok, err, ℤ, pos, negsuc,
  arith,
}
use csi_runtime.Base.Prog.{◌>>=◌, bind, ret}
use csi_runtime.Base.AllCalls.{AllCalls, AllCalls->>=, AllCalls-map_err, all_ret, all_calls}
use csi_runtime.Rpc.{Error}
use csi_runtime.Dict.{Dict, get}
use csi_runtime.Metadata.{Metadata}
use csi_runtime.Storage.Disk.{
  Filesystem, Os, fs_group_for_metadata, parse_group, attribute_group, write_files,
  ensure_volume_directory, chown_data, chown_written, chown_files,
}
use csi_runtime.Storage.Disk.Calls.{
  FsError, FsCall, chown, fs_asks, AllCalls-do_chown, AllCalls-do_new_atomic_writer,
  AllCalls-do_write_payload, Io,
}

-- A group ID: between 1 and 4294967295.
abbrev pub IsGroup : ℤ → Type 0
IsGroup (pos n) = (1 ≤ n) × (n ≤ 4294967295)
IsGroup (negsuc n) = ⊥

module _ (os : Os) (f : Filesystem) where
  parsed_in_range :
      (r : Result Error ℤ) (g : ℤ) → parse_group os f r ≡ ok (some g) → IsGroup g × (r ≡ ok g)
  parsed_in_range (err e) g h = ground arith
  parsed_in_range (ok (negsuc m)) g h = ground arith
  parsed_in_range (ok (pos m)) (pos n) h = ground arith
  parsed_in_range (ok (pos m)) (negsuc n) h = ground arith

  attribute_in_range :
      (o : Option String) (g : ℤ)
      → attribute_group os f o ≡ ok (some g)
      → IsGroup g × ((s : String) × (o ≡ some s) × (os.parse_int s ≡ ok g))
  attribute_in_range none g h = ground arith
  attribute_in_range (some s) g h =
      let (is_group, parsed) = parsed_in_range (os.parse_int s) g h in (is_group, (s, refl, parsed))

module _ (os : Os) (f : Filesystem) (meta : Metadata) where
  -- Where no group is fixed, a group is only ever taken from the attribute of the volume that the
  -- key names, when that parses as a number between 1 and 4294967295; without a key or without the
  -- attribute there is none.
  fs_group_lem :
      f.fixed_fs_group ≡ none
      → ((g : ℤ)
          → fs_group_for_metadata os f meta ≡ ok (some g)
          → IsGroup g
            × ((s : String) × (get f.fs_group_volume_attribute_key meta.volume_context ≡ some s)
                × (os.parse_int s ≡ ok g)))
        × (get f.fs_group_volume_attribute_key meta.volume_context ≡ none
            → fs_group_for_metadata os f meta ≡ ok none)
  unfolding fs_group_for_metadata
  fs_group_lem h = ((λ g e. attribute_in_range os f _ g (ground arith)), (λ missing. ground arith))

  -- A fixed group; otherwise what `fs_group_lem` says.
  taken_in_range :
      (g : ℤ) → fs_group_for_metadata os f meta ≡ ok (some g) → f.fixed_fs_group ≡ none → IsGroup g
  taken_in_range g e h = ((fs_group_lem h).0 g e).0

-- A call that may change an owner: the user stays, and the group is a group ID.
abbrev pub GivesToGroup : {Bytes : Type 0} → FsCall Bytes → Type 0
GivesToGroup (chown path uid gid) = (uid ≡ negsuc 0) × IsGroup gid
GivesToGroup _ = Unit {0}

ruleset own_calls = (
  all_calls, fs_asks, AllCalls-do_chown, AllCalls-do_new_atomic_writer, AllCalls-do_write_payload,
  tt,
)

module _ (os : Os) (f : Filesystem) {Bytes : Type 0} where
  AllCalls-chown_files :
      (g : ℤ) (dir : String) (files : Dict Bytes)
      → IsGroup g
      → AllCalls GivesToGroup (chown_files os f g dir files)
  unfolding chown_files
  AllCalls-chown_files g dir [] h = search own_calls
  AllCalls-chown_files g dir ((name, contents) ∷ files) h =
      AllCalls->>= _ _ (AllCalls-do_chown _ _ _ (refl, h)) (λ _. AllCalls-chown_files g dir files h)

  AllCalls-chown_data :
      (o : Option ℤ) (dir : String)
      → ((g : ℤ) → o ≡ some g → IsGroup g)
      → AllCalls GivesToGroup (chown_data os f {Bytes = Bytes} o dir)
  unfolding chown_data
  AllCalls-chown_data none dir h = search own_calls
  AllCalls-chown_data (some g) dir h =
      AllCalls-map_err _ _ (AllCalls-do_chown _ _ _ (refl, h g refl))

  AllCalls-chown_written :
      (o : Option ℤ) (dir : String) (files : Dict Bytes)
      → ((g : ℤ) → o ≡ some g → IsGroup g)
      → AllCalls GivesToGroup (chown_written os f o dir files)
  unfolding chown_written
  AllCalls-chown_written none dir files h = search own_calls
  AllCalls-chown_written (some g) dir files h = AllCalls-chown_files g _ files (h g refl)

  AllCalls-ensure :
      (id : String) → AllCalls GivesToGroup (ensure_volume_directory os f {Bytes = Bytes} id)
  unfolding ensure_volume_directory
  AllCalls-ensure id = search own_calls depth 12

  -- The rest of `WriteFiles`, on the group.
  AllCalls-with_group :
      (r : Result FsError (Option ℤ)) (n : Option ℤ → Io Bytes (Unit {0}))
      → ((o : Option ℤ) → r ≡ ok o → AllCalls GivesToGroup (n o))
      → AllCalls GivesToGroup (ret r >>= n)
  unfolding ◌>>=◌ bind
  AllCalls-with_group (ok o) n h = h o refl
  AllCalls-with_group (err e) n h = all_ret (err e)

  -- Where no group is fixed, every change of an owner that `WriteFiles` makes, whatever the calls
  -- before it answered, keeps the user and gives a group ID between 1 and 4294967295.
  pub write_files-GivesToGroup :
      (meta : Metadata) (files : Dict Bytes)
      → f.fixed_fs_group ≡ none
      → AllCalls GivesToGroup (write_files os f meta files)
  unfolding write_files
  write_files-GivesToGroup meta files fixed = AllCalls->>= _ _ (AllCalls-ensure meta.volume_id) λ _.
      AllCalls-with_group _ _ λ o e. AllCalls->>= _ _ (AllCalls-chown_data o _ (group e)) λ _.
        AllCalls->>= _ _ (AllCalls-do_new_atomic_writer _ _ tt) λ _.
          AllCalls->>= _ _ (AllCalls-do_write_payload _ _ tt)
            λ _. AllCalls-chown_written o _ files (group e)
    where
      group :
          {o : Option ℤ} → fs_group_for_metadata os f meta ≡ ok o → (g : ℤ) → o ≡ some g → IsGroup g
      group e g is = taken_in_range os f meta g (e ∙ ap ok is) fixed
