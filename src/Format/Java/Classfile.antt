-- ===== src/Format/Java/Classfile.antt =====
-- src/format/java/classfile.rs: the parser of class files.
use trim.Prelude.{
  ℕ, zero, suc, ◌+◌, ◌-◌, ◌*◌, Bool, true, false, List, [], ◌∷◌, ◌++◌, Option, none, some, leb, ltb,
  ◌==◌, ◌&&◌, if◌then◌else◌, String, str_eq, length, get_elem?, take, drop,
}
use trim.Types.{Endian}
use trim.Types.Pointer.{decode_bytes}

pub data CpEntry : Type 0 where
  utf8 : String → CpEntry
  integer float long double : CpEntry
  class : ℕ → CpEntry
  string : ℕ → CpEntry
  fieldref : ℕ → ℕ → CpEntry
  methodref : ℕ → ℕ → CpEntry
  interface_methodref : ℕ → ℕ → CpEntry
  name_and_type : ℕ → ℕ → CpEntry
  method_handle : ℕ → ℕ → CpEntry
  method_type : ℕ → CpEntry
  invoke_dynamic : ℕ → ℕ → CpEntry
  placeholder : CpEntry

pub record MethodInfo : Type 0 where
  pub access_flags : ℕ
  pub name_index : ℕ
  pub descriptor_index : ℕ
  pub code_offset : Option ℕ
  pub code_length : ℕ
  pub code_attr_offset : Option ℕ
  pub exception_table_len : ℕ
  pub raw_offset : ℕ
  pub raw_size : ℕ

pub record ClassFile : Type 0 where
  pub constant_pool : List CpEntry
  pub access_flags : ℕ
  pub methods : List MethodInfo
  pub methods_count_offset : ℕ
  pub total_size : ℕ

-- `from_be_bytes` of the `n` bytes at `off`.
abbrev pub be_bytes : ℕ → List ℕ → ℕ → ℕ
be_bytes n bytes off = decode_bytes Endian.big (take n (drop off bytes))

unfoldable pub read_u16 : List ℕ → ℕ → ℕ
read_u16 bytes off = if ltb (length bytes) (off + 2) then 0 else be_bytes 2 bytes off

unfoldable pub read_u32 : List ℕ → ℕ → ℕ
read_u32 bytes off = if ltb (length bytes) (off + 4) then 0 else be_bytes 4 bytes off

unfoldable pub cp_utf8 : List CpEntry → ℕ → String
cp_utf8 pool idx = elim (get_elem? pool idx) [ some (utf8 s) ↦ s | _ ↦ "" ]

-- `pool[i]` is the text `s`.
unfoldable pub is_utf8 : List CpEntry → ℕ → String → Bool
is_utf8 pool idx s = elim (get_elem? pool idx) [ some (utf8 t) ↦ str_eq t s | _ ↦ false ]

module _ (from_utf8_lossy : List ℕ → String) where
  -- The arm of a tag: the entries that it pushes, and the place after the entry. `none` is an
  -- error, and the panic where the kind of a method handle is past the end.
  unfoldable pub cp_entry : List ℕ → ℕ → ℕ → Option (List CpEntry × ℕ)
  cp_entry bytes tag pos =
      let one = λ (e : CpEntry) (size : ℕ).
        let t : Option (List CpEntry × ℕ) = some (e ∷ [], pos + size) in t in
      let a = read_u16 bytes pos in
      let b = read_u16 bytes (pos + 2) in
      if tag == 1
      then (if ltb (length bytes) (pos + 2)
          then none
          else if ltb (length bytes) (pos + 2 + a)
          then none
          else one (utf8 (from_utf8_lossy (take a (drop (pos + 2) bytes)))) (2 + a))
      else if tag == 3
      then one integer 4
      else if tag == 4
      then one float 4
      else if tag == 5
      then some (long ∷ placeholder ∷ [], pos + 8)
      else if tag == 6
      then some (double ∷ placeholder ∷ [], pos + 8)
      else if tag == 7
      then one (class a) 2
      else if tag == 8
      then one (string a) 2
      else if tag == 9
      then one (fieldref a b) 4
      else if tag == 10
      then one (methodref a b) 4
      else if tag == 11
      then one (interface_methodref a b) 4
      else if tag == 12
      then one (name_and_type a b) 4
      else if tag == 15
      then (elim (get_elem? bytes pos) [
        | none ↦ none
        | some kind ↦ one (method_handle kind (read_u16 bytes (pos + 1))) 3
      ])
      else if tag == 16
      then one (method_type a) 2
      else if tag == 18
      then one (invoke_dynamic a b) 4
      else none

  -- The loop, on the number of slots left: `second` where the slot is the second one of an entry.
  unfoldable pub pool_from : ℕ → Bool → List ℕ → ℕ → Option (List CpEntry × ℕ)
  pool_from zero second bytes pos = some ([], pos)
  pool_from (suc slots) true bytes pos = pool_from slots false bytes pos
  pool_from (suc slots) false bytes pos = elim (get_elem? bytes pos) [
    | none ↦ none
    | some tag ↦ elim (cp_entry bytes tag (pos + 1)) [
      | none ↦ none
      | some (entries, after) ↦ elim (pool_from slots (length entries == 2) bytes after) [
        | none ↦ none
        | some (rest, end) ↦ some (entries ++ rest, end)
      ]
    ]
  ]

  unfoldable pub parse_constant_pool : List ℕ → ℕ → ℕ → Option (List CpEntry × ℕ)
  parse_constant_pool bytes pos cp_count = elim (pool_from (cp_count - 1) false bytes pos) [
    | none ↦ none
    | some (pool, end) ↦ some (placeholder ∷ pool, end)
  ]

-- What the attributes tell of a method's code.
pub record CodeInfo : Type 0 where
  pub offset : Option ℕ
  pub size : ℕ
  pub attr_offset : Option ℕ
  pub exceptions : ℕ

-- The attribute at `pos`, read where it is a Code attribute.
unfoldable pub code_info : List ℕ → List CpEntry → ℕ → CodeInfo → CodeInfo
code_info bytes pool pos info =
    let start = pos + 6 in
    let cl = read_u32 bytes (start + 4) in
    let et_off = start + 8 + cl in
    if is_utf8 pool (read_u16 bytes pos) "Code" && leb (start + 8) (length bytes)
    then record {
      offset = some (start + 8);
      size = cl;
      attr_offset = some pos;
      exceptions =
          if leb (et_off + 2) (length bytes) then read_u16 bytes et_off else info.exceptions;
    }
    else info

unfoldable pub attributes_from : ℕ → List ℕ → List CpEntry → ℕ → CodeInfo → Option (CodeInfo × ℕ)
attributes_from zero bytes pool pos info = some (info, pos)
attributes_from (suc n) bytes pool pos info =
    let next = pos + 6 + read_u32 bytes (pos + 2) in
    let rest = attributes_from n bytes pool next (code_info bytes pool pos info) in
    if ltb (length bytes) (pos + 6) then none else if ltb (length bytes) next then none else rest

abbrev pub no_code : CodeInfo
no_code = record { offset = none; size = 0; attr_offset = none; exceptions = 0 }

unfoldable pub parse_method : List ℕ → ℕ → List CpEntry → Option (MethodInfo × ℕ)
parse_method bytes start pool =
    if ltb (length bytes) (start + 8)
    then none
    else (elim (attributes_from (read_u16 bytes (start + 6)) bytes pool (start + 8) no_code) [
      | none ↦ none
      | some (info, pos) ↦ some (
        record {
          access_flags = read_u16 bytes start;
          name_index = read_u16 bytes (start + 2);
          descriptor_index = read_u16 bytes (start + 4);
          code_offset = info.offset;
          code_length = info.size;
          code_attr_offset = info.attr_offset;
          exception_table_len = info.exceptions;
          raw_offset = start;
          raw_size = pos - start;
        },
        pos,
      )
    ])

-- The attributes of a field.
unfoldable pub skip_field : ℕ → List ℕ → ℕ → Option ℕ
skip_field zero bytes pos = some pos
skip_field (suc n) bytes pos =
    let next = pos + (6 + read_u32 bytes (pos + 2)) in
    let rest = skip_field n bytes next in
    if ltb (length bytes) (pos + 6) then none else if ltb (length bytes) next then none else rest

unfoldable pub skip_fields_from : ℕ → List ℕ → ℕ → Option ℕ
skip_fields_from zero bytes pos = some pos
skip_fields_from (suc n) bytes pos =
    if ltb (length bytes) (pos + 8)
    then none
    else (elim (skip_field (read_u16 bytes (pos + 6)) bytes (pos + 8)) [
      | none ↦ none
      | some next ↦ skip_fields_from n bytes next
    ])

unfoldable pub skip_fields_or_methods : List ℕ → ℕ → Option ℕ
skip_fields_or_methods bytes pos =
    if ltb (length bytes) (pos + 2)
    then none
    else skip_fields_from (read_u16 bytes pos) bytes (pos + 2)

unfoldable pub skip_attributes_from : ℕ → List ℕ → ℕ → ℕ
skip_attributes_from zero bytes pos = pos
skip_attributes_from (suc n) bytes pos =
    let rest = skip_attributes_from n bytes (pos + (6 + read_u32 bytes (pos + 2))) in
    if ltb (length bytes) (pos + 6) then pos else rest

unfoldable pub skip_attributes : List ℕ → ℕ → ℕ
skip_attributes bytes pos =
    if ltb (length bytes) (pos + 2)
    then pos
    else skip_attributes_from (read_u16 bytes pos) bytes (pos + 2)

unfoldable pub methods_from : ℕ → List ℕ → List CpEntry → ℕ → Option (List MethodInfo × ℕ)
methods_from zero bytes pool pos = some ([], pos)
methods_from (suc n) bytes pool pos = elim (parse_method bytes pos pool) [
  | none ↦ none
  | some (m, next) ↦ elim (methods_from n bytes pool next) [
    | none ↦ none
    | some (ms, end) ↦ some (m ∷ ms, end)
  ]
]

-- After the constant pool: the class's flags, three indices, its interfaces, fields and methods.
unfoldable pub parse_class : List ℕ → List CpEntry → ℕ → Option ClassFile
parse_class bytes pool pos =
    let fields = pos + 8 + read_u16 bytes (pos + 6) * 2 in
    elim (skip_fields_or_methods bytes fields) [
      | none ↦ none
      | some methods_count_offset ↦
          elim (methods_from (read_u16 bytes methods_count_offset) bytes pool
            (methods_count_offset + 2)) [
              | none ↦ none
              | some (methods, end) ↦ some record {
                constant_pool = pool;
                access_flags = read_u16 bytes pos;
                methods = methods;
                methods_count_offset = methods_count_offset;
                total_size = skip_attributes bytes end;
              }
            ]
    ]

unfoldable pub parse_classfile : (List ℕ → String) → List ℕ → Option ClassFile
parse_classfile from_utf8_lossy bytes =
    if ltb (length bytes) 10
    then none
    else if read_u32 bytes 0 == 0xcafebabe
    then (elim (parse_constant_pool from_utf8_lossy bytes 10 (read_u16 bytes 8)) [
      | none ↦ none
      | some (pool, pos) ↦ parse_class bytes pool pos
    ])
    else none
