-- ===== src/Ntfs/Info.antt =====
-- src/formats/ntfs.rs, `extract_record_info`: what the tree needs of a record.
use isomage.Prelude.{
  ℕ, ◌+◌, Bool, true, List, [], ◌∷◌, Option, none, some, ltb, ◌==◌, if◌then◌else◌, length, drop,
  Result, ok, err,
}
use isomage.Text.{Str}
use isomage.Bytes.{le16, le32, le64}
use isomage.Word.{add64, mul64}
use isomage.Ntfs.Record.{Error}
use isomage.Ntfs.Attributes.{
  Attribute, attr_end, FileNameAttr, parse_attributes, parse_filename_attr, Run, decode_runlist,
}

abbrev pub ns_dos : ℕ
ns_dos = 2

pub record RecordInfo : Type 0 where
  pub mft_num : ℕ
  pub name : Str
  pub parent_ref : ℕ
  pub is_directory : Bool
  pub file_size : ℕ
  pub file_location : Option ℕ

unfoldable pub namespace_priority : ℕ → ℕ
namespace_priority ns = if ns == 3 then 3 else if ns == 1 then 2 else if ns == 0 then 1 else 0

-- What the loop over the attributes has found so far.
pub record Found : Type 0 where
  pub best_fn : Option FileNameAttr
  pub file_size : ℕ
  pub file_location : Option ℕ

-- The name that is taken: one that is not DOS-only, and is better than the one before.
unfoldable pub better_name : Option FileNameAttr → FileNameAttr → Option FileNameAttr
better_name best fn_attr =
    let take : Bool = elim best [
      | none ↦ true
      | some existing ↦
          ltb (namespace_priority existing.namespace) (namespace_priority fn_attr.namespace)
    ] in
    if fn_attr.namespace == ns_dos then best else if take then some fn_attr else best

unfoldable pub name_of : Option (List ℕ) → Option FileNameAttr
name_of none = none
name_of (some value) = parse_filename_attr value

unfoldable pub with_name : Option FileNameAttr → Found → Found
with_name none found = found
with_name (some fn_attr) found = record found { best_fn = better_name found.best_fn fn_attr }

module _ (buf : List ℕ) (mft_record_abs_offset cluster_size volume_base : ℕ) where
  -- A resident value lies in the record itself.
  unfoldable pub with_resident : ℕ → Option (List ℕ) → Found → Found
  with_resident attr_pos none found = found
  with_resident attr_pos (some value) found =
      let location = add64 (add64 mft_record_abs_offset attr_pos) (le16 buf (attr_pos + 20)) in
      record found {
        file_size = length value;
        file_location =
            if ltb (length buf) (attr_pos + 24) then found.file_location else some location;
      }

  -- A single run that is not sparse has a location; else the one before stays.
  unfoldable pub location_of_runs : List Run × Bool → Option ℕ → Option ℕ
  location_of_runs ([], had_sparse) before = before
  location_of_runs (run ∷ runs, had_sparse) before = elim runs [
    | [] ↦
        if had_sparse then before else some (add64 volume_base (mul64 run.start_lcn cluster_size))
    | _ ∷ _ ↦ before
  ]

  unfoldable pub with_nonresident : Option (List ℕ) → Found → Found
  with_nonresident none found = found
  with_nonresident (some nr_slice) found =
      let runlist_offset = le16 nr_slice 32 in
      if ltb (length nr_slice) 64 then found else record found {
        file_size = le64 nr_slice 48;
        file_location =
            if ltb runlist_offset (length nr_slice)
            then location_of_runs (decode_runlist (drop runlist_offset nr_slice))
                found.file_location
            else found.file_location;
      }

  -- The match on the type of the attribute.
  unfoldable pub with_attribute : ℕ → Attribute → Found → Found
  with_attribute attr_pos attr found =
      if attr.attr_type == 0x30
      then with_name (name_of attr.resident_data) found
      else if attr.attr_type == 0x80
      then (if attr.non_resident
          then with_nonresident attr.nonresident_slice found
          else with_resident attr_pos attr.resident_data found)
      else found

  -- The loop over the attributes, with their positions in the record.
  unfoldable pub info_loop : List Attribute → ℕ → Found → Found
  info_loop [] attr_pos found = found
  info_loop (attr ∷ attrs) attr_pos found =
      let attr_length = le32 buf (attr_pos + 4) in
      let found' = with_attribute attr_pos attr found in
      let rest = info_loop attrs (attr_pos + attr_length) found' in
      if ltb (length buf) (attr_pos + 8)
      then found
      else if le32 buf attr_pos == attr_end
      then found
      else if attr_length == 0
      then found'
      else rest

unfoldable pub info_of : ℕ → Found → Option RecordInfo
info_of mft_num found = elim found.best_fn [
  | none ↦ none
  | some fn_attr ↦ some (record {
    mft_num = mft_num;
    name = fn_attr.name;
    parent_ref = fn_attr.parent_ref;
    is_directory = fn_attr.is_directory;
    file_size = found.file_size;
    file_location = found.file_location;
  })
]

abbrev pub nothing_found : Found
nothing_found = record { best_fn = none; file_size = 0; file_location = none }

unfoldable pub info_of_attributes :
    List ℕ → ℕ → ℕ → ℕ → ℕ → Result Error (List Attribute) → Result Error (Option RecordInfo)
info_of_attributes buf mft_num abs_offset cluster_size volume_base (err e) = err e
info_of_attributes buf mft_num abs_offset cluster_size volume_base (ok attrs) = ok (
    info_of mft_num
      (info_loop buf abs_offset cluster_size volume_base attrs (le16 buf 20) nothing_found))

unfoldable pub extract_record_info : List ℕ → ℕ → ℕ → ℕ → ℕ → Result Error (Option RecordInfo)
extract_record_info buf mft_num abs_offset cluster_size volume_base =
    info_of_attributes buf mft_num abs_offset cluster_size volume_base (parse_attributes buf)
