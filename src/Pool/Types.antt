-- ===== src/Pool/Types.antt =====
-- The types of objects, `dmu_object_type_t` of extractor/defs.h, and their descriptions,
-- `DMU_TYPE_DESC` of extractor/zio.cpp.
use Prim.Native.String.{String}
use dumpbin_py_zfs_rescue.Common.{
  ℕ, zero, suc, ◌<◌, ◌≡◌, refl, arith, [], ◌∷◌, List, some, length, get_elem?,
}

pub data DmuObjectType : Type 0 where
  dmu_ot_none : DmuObjectType
  dmu_ot_object_directory : DmuObjectType
  dmu_ot_object_array : DmuObjectType
  dmu_ot_packed_nvlist : DmuObjectType
  dmu_ot_packed_nvlist_size : DmuObjectType
  dmu_ot_bpobj : DmuObjectType
  dmu_ot_bpobj_hdr : DmuObjectType
  dmu_ot_space_map_header : DmuObjectType
  dmu_ot_space_map : DmuObjectType
  dmu_ot_intent_log : DmuObjectType
  dmu_ot_dnode : DmuObjectType
  dmu_ot_objset : DmuObjectType
  dmu_ot_dsl_dir : DmuObjectType
  dmu_ot_dsl_dir_child_map : DmuObjectType
  dmu_ot_dsl_ds_snap_map : DmuObjectType
  dmu_ot_dsl_props : DmuObjectType
  dmu_ot_dsl_dataset : DmuObjectType
  dmu_ot_znode : DmuObjectType
  dmu_ot_oldacl : DmuObjectType
  dmu_ot_plain_file_contents : DmuObjectType
  dmu_ot_directory_contents : DmuObjectType
  dmu_ot_master_node : DmuObjectType
  dmu_ot_unlinked_set : DmuObjectType
  dmu_ot_zvol : DmuObjectType
  dmu_ot_zvol_prop : DmuObjectType
  dmu_ot_plain_other : DmuObjectType
  dmu_ot_uint64_other : DmuObjectType
  dmu_ot_zap_other : DmuObjectType
  dmu_ot_error_log : DmuObjectType
  dmu_ot_spa_history : DmuObjectType
  dmu_ot_spa_history_offsets : DmuObjectType
  dmu_ot_pool_props : DmuObjectType
  dmu_ot_dsl_perms : DmuObjectType
  dmu_ot_acl : DmuObjectType
  dmu_ot_sysacl : DmuObjectType
  dmu_ot_fuid : DmuObjectType
  dmu_ot_fuid_size : DmuObjectType
  dmu_ot_next_clones : DmuObjectType
  dmu_ot_scan_queue : DmuObjectType
  dmu_ot_usergroup_used : DmuObjectType
  dmu_ot_usergroup_quota : DmuObjectType
  dmu_ot_userrefs : DmuObjectType
  dmu_ot_ddt_zap : DmuObjectType
  dmu_ot_ddt_stats : DmuObjectType
  dmu_ot_sa : DmuObjectType
  dmu_ot_sa_master_node : DmuObjectType
  dmu_ot_sa_attr_registration : DmuObjectType
  dmu_ot_sa_attr_layouts : DmuObjectType
  dmu_ot_scan_xlate : DmuObjectType
  dmu_ot_dedup : DmuObjectType
  dmu_ot_deadlist : DmuObjectType
  dmu_ot_deadlist_hdr : DmuObjectType
  dmu_ot_dsl_clones : DmuObjectType
  dmu_ot_bpobj_subobj : DmuObjectType
  dmu_ot_numtypes : DmuObjectType
  dmu_otn_zap_data : DmuObjectType

-- The value that C gives to each.
abbrev pub number : DmuObjectType → ℕ
number dmu_ot_none = 0
number dmu_ot_object_directory = 1
number dmu_ot_object_array = 2
number dmu_ot_packed_nvlist = 3
number dmu_ot_packed_nvlist_size = 4
number dmu_ot_bpobj = 5
number dmu_ot_bpobj_hdr = 6
number dmu_ot_space_map_header = 7
number dmu_ot_space_map = 8
number dmu_ot_intent_log = 9
number dmu_ot_dnode = 10
number dmu_ot_objset = 11
number dmu_ot_dsl_dir = 12
number dmu_ot_dsl_dir_child_map = 13
number dmu_ot_dsl_ds_snap_map = 14
number dmu_ot_dsl_props = 15
number dmu_ot_dsl_dataset = 16
number dmu_ot_znode = 17
number dmu_ot_oldacl = 18
number dmu_ot_plain_file_contents = 19
number dmu_ot_directory_contents = 20
number dmu_ot_master_node = 21
number dmu_ot_unlinked_set = 22
number dmu_ot_zvol = 23
number dmu_ot_zvol_prop = 24
number dmu_ot_plain_other = 25
number dmu_ot_uint64_other = 26
number dmu_ot_zap_other = 27
number dmu_ot_error_log = 28
number dmu_ot_spa_history = 29
number dmu_ot_spa_history_offsets = 30
number dmu_ot_pool_props = 31
number dmu_ot_dsl_perms = 32
number dmu_ot_acl = 33
number dmu_ot_sysacl = 34
number dmu_ot_fuid = 35
number dmu_ot_fuid_size = 36
number dmu_ot_next_clones = 37
number dmu_ot_scan_queue = 38
number dmu_ot_usergroup_used = 39
number dmu_ot_usergroup_quota = 40
number dmu_ot_userrefs = 41
number dmu_ot_ddt_zap = 42
number dmu_ot_ddt_stats = 43
number dmu_ot_sa = 44
number dmu_ot_sa_master_node = 45
number dmu_ot_sa_attr_registration = 46
number dmu_ot_sa_attr_layouts = 47
number dmu_ot_scan_xlate = 48
number dmu_ot_dedup = 49
number dmu_ot_deadlist = 50
number dmu_ot_deadlist_hdr = 51
number dmu_ot_dsl_clones = 52
number dmu_ot_bpobj_subobj = 53
number dmu_ot_numtypes = 54
number dmu_otn_zap_data = 196

abbrev pub dmu_type_desc : List String
dmu_type_desc =
    "unallocated" ∷ "object directory" ∷ "object array" ∷ "packed nvlist" ∷ "packed nvlist size"
    ∷ "bpobj" ∷ "bpobj header" ∷ "SPA space map header" ∷ "SPA space map" ∷ "ZIL intent log"
    ∷ "DMU dnode" ∷ "DMU objset" ∷ "DSL directory" ∷ "DSL directory child map"
    ∷ "DSL dataset snap map" ∷ "DSL props" ∷ "DSL dataset" ∷ "ZFS znode" ∷ "ZFS V0 ACL"
    ∷ "ZFS plain file" ∷ "ZFS directory" ∷ "ZFS master node" ∷ "ZFS delete queue" ∷ "zvol object"
    ∷ "zvol prop" ∷ "other uint8[]" ∷ "other uint64[]" ∷ "other ZAP" ∷ "persistent error log"
    ∷ "SPA history" ∷ "SPA history offsets" ∷ "Pool properties" ∷ "DSL permissions" ∷ "ZFS ACL"
    ∷ "ZFS SYSACL" ∷ "FUID table" ∷ "FUID table size" ∷ "DSL dataset next clones"
    ∷ "scan work queue" ∷ "ZFS user/group used" ∷ "ZFS user/group quota" ∷ "snapshot refcount tags"
    ∷ "DDT ZAP algorithm" ∷ "DDT statistics" ∷ "System attributes" ∷ "SA master node"
    ∷ "SA attr registration" ∷ "SA attr layouts" ∷ "scan translations" ∷ "deduplicated block"
    ∷ "DSL deadlist map" ∷ "DSL deadlist map hdr" ∷ "DSL dir clones" ∷ "bpobj subobj" ∷ []

get_elem?-below :
    (xs : List String) (i : ℕ) → i < length xs → (x : String) × (get_elem? xs i ≡ some x)
get_elem?-below [] i lt = absurd (omega arith)
get_elem?-below (x ∷ xs) zero lt = (x, refl)
get_elem?-below (x ∷ xs) (suc i) lt = get_elem?-below xs i (omega arith)

-- Each type below `DMU_OT_NUMTYPES` has a description in the table.
pub dmu_type_desc-covers :
    (t : DmuObjectType)
    → number t < number dmu_ot_numtypes
    → (x : String) × (get_elem? dmu_type_desc (number t) ≡ some x)
dmu_type_desc-covers t lt = get_elem?-below dmu_type_desc (number t) lt
