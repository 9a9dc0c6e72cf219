-- ===== src/Reflect.antt =====
-- The order of the descriptor files and their framing (`topo_sort` and `push_file_descriptor` of
-- rust/crates/grpc-webnext/src/reflect.rs). The map of the files is the list of its entries.
pub mod Names
pub mod Sorted
pub mod Known
pub mod Fetch
pub mod Load
use grpc_webnext.Prelude.{
  ℕ, zero, suc, ◌+◌, ◌*◌, ◌/◌, ◌%◌, ◌≡◌, List, [], ◌∷◌, ◌++◌, Option, none, some, Bool, true, false,
  Bytes, codes, length, any, map, str_eq, str_leb, ◌==◌, if◌then◌else◌, refl,
}

-- `RawFile`.
pub record RawFile : Type 0 where
  pub bytes : Bytes
  pub deps : List Bytes

abbrev pub Files : Type 0
Files = List (Bytes × RawFile)

-- `files.get(name)`.
unfoldable pub look_up : Files → Bytes → Option RawFile
look_up [] name = none
look_up ((n, f) ∷ fs) name = let rest = look_up fs name in if str_eq n name then some f else rest

-- The names that were seen, and the files that were pushed, the last one first.
pub record Visit : Type 0 where
  pub seen : List Bytes
  pub out : Files

-- A visit of each name in turn; `none` is out of fuel.
pub visit_each : (Bytes → Visit → Option Visit) → List Bytes → Visit → Option Visit
visit_each visit [] st = some st
visit_each visit (n ∷ ns) st = elim (visit n st) [
  | none ↦ none
  | some st' ↦ visit_each visit ns st'
]

-- A file is pushed behind what it depends on.
pub push_file : Bytes → RawFile → Option Visit → Option Visit
push_file name f none = none
push_file name f (some st) = some (record { seen = st.seen; out = (name, f) ∷ st.out })

-- `visit`. `seen.insert(name)` is false where the name was seen.
pub visit : ℕ → Files → Bytes → Visit → Option Visit
unfolding visit_each push_file look_up
visit zero files name st = none
visit (suc fuel) files name st =
    let entered : Visit = record { seen = name ∷ st.seen; out = st.out } in
    let absent : Option Visit = some entered in
    if any (λ s. str_eq s name) st.seen then some st else elim (look_up files name) [
      | none ↦ absent
      | some f ↦ push_file name f (visit_each (visit fuel files) f.deps entered)
    ]

-- `names.sort()`.
pub insert_name : Bytes → List Bytes → List Bytes
insert_name n [] = n ∷ []
insert_name n (m ∷ ms) = let rest = insert_name n ms in if str_leb n m then n ∷ m ∷ ms else m ∷ rest

pub sort_names : List Bytes → List Bytes
sort_names [] = []
sort_names (n ∷ ns) = insert_name n (sort_names ns)

-- The files in the order in which they were pushed.
in_order : Files → Files → Files
in_order acc [] = acc
in_order acc (f ∷ fs) = in_order (f ∷ acc) fs

-- `topo_sort`, before the bytes of the files are taken out.
pub sorted_files : ℕ → Files → Option Visit
unfolding visit_each visit
sorted_files fuel files =
    visit_each (visit fuel files) (sort_names (map (λ f. f.0) files))
      (record { seen = []; out = [] })

pub topo_sort : ℕ → Files → Option (List Bytes)
topo_sort fuel files = elim (sorted_files fuel files) [
  | none ↦ none
  | some st ↦ some (map (λ f. f.1.bytes) (in_order [] st.out))
]

-- The loop of the length: seven bits in each byte, the lowest first; a round for each byte.
pub put_varint : ℕ → ℕ → Bytes
put_varint zero len = []
put_varint (suc fuel) len =
    let rest = put_varint fuel (len / 128) in
    if len / 128 == 0 then (len % 128) ∷ [] else (len % 128 + 128) ∷ rest

-- `push_file_descriptor`: a length of 64 bits takes at most ten bytes.
unfoldable pub push_file_descriptor : Bytes → Bytes → Bytes
unfolding put_varint
push_file_descriptor buf raw = buf ++ (10 ∷ (put_varint 10 (length raw) ++ raw))

diamond : Files
diamond =
    (codes "a", record { bytes = codes "A"; deps = codes "c" ∷ codes "b" ∷ [] })
    ∷ (codes "b", record { bytes = codes "B"; deps = codes "d" ∷ [] })
    ∷ (codes "c", record { bytes = codes "C"; deps = codes "d" ∷ codes "x" ∷ [] })
    ∷ (codes "d", record { bytes = codes "D"; deps = [] })
    ∷ []

diamond_sorted : topo_sort 9 diamond ≡ some (codes "D" ∷ codes "C" ∷ codes "B" ∷ codes "A" ∷ [])
unfolding topo_sort sorted_files visit visit_each push_file look_up sort_names insert_name in_order
    diamond
diamond_sorted = refl
