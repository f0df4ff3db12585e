-- ===== src/Config/Saved.antt =====
-- The configuration as MessagePack: what config_write_messagepack writes, and what is asked of cmp and
-- cmp_mem_access.
pub mod Keys
pub mod Fields
pub mod Entries
pub mod Rounds
pub mod Written
pub mod RoundTrip
use cvra_bootloader.Prelude.{
  ℕ, suc, ◌+◌, ◌^◌, ◌≤◌, ◌<◌, ◌≡◌, refl, List, [], ◌∷◌, ◌++◌, Option, some, length, drop,
}
use cvra_bootloader.Prelude.Chars.{c_str}
use cvra_bootloader.Platform.{Cmp, Platform}
use cvra_bootloader.Config.{
  Config, key_id, key_board_name, key_device_class, key_application_crc, key_application_size,
  key_update_count, key_bootloader_commit, key_bootloader_version, config_write_messagepack,
}

-- The values of MessagePack that a configuration has.
pub data Value : Type 0 where
  entries : ℕ → Value
  text : List ℕ → Value
  byte : ℕ → Value
  word : ℕ → Value

-- The values of C's types.
abbrev pub FitsValue : Value → Type 0
FitsValue (entries n) = n < 2 ^ 32
FitsValue (text bytes) = length bytes < 2 ^ 32
FitsValue (byte n) = n < 2 ^ 8
FitsValue (word n) = n < 2 ^ 32

module _ (c : Cmp) where
  abbrev pub write_value : c.Ctx → Value → c.Ctx
  write_value context (entries n) = c.write_map context n
  write_value context (text bytes) = c.write_str context bytes
  write_value context (byte n) = c.write_u8 context n
  write_value context (word n) = c.write_uint context n

  abbrev pub write_values : c.Ctx → List Value → c.Ctx
  write_values context [] = context
  write_values context (v ∷ vs) = write_values (write_value context v) vs

  -- cmp and cmp_mem_access: what is written while there is room can be read back in the same order by a
  -- context over the memory, and a string is read with a NUL behind it into an array that has room for
  -- both.
  pub record IsCmp : Type 1 where
    -- The values written so far to a memory of that size, and the room that is left.
    pub Wrote : ℕ → c.Ctx → List Value → ℕ → Type 0
    -- The next values to be read.
    pub Ahead : c.Ctx → List Value → Type 0
    pub size_of : Value → ℕ
    pub init_wrote : (memory : List ℕ) (n : ℕ) → n ≤ length memory → Wrote n (c.init memory n) [] n
    pub write_wrote :
        (n : ℕ) (context : c.Ctx) (vs : List Value) (v : Value) (room : ℕ)
        → FitsValue v
        → Wrote n context vs (size_of v + room)
        → Wrote n (write_value context v) (vs ++ (v ∷ [])) room
    pub memory_ahead :
        (n : ℕ) (context : c.Ctx) (vs : List Value) (room : ℕ)
        → Wrote n context vs room
        → Ahead (c.ro_init (c.memory context) n) vs
    pub read_map_ahead :
        (context : c.Ctx) (n : ℕ) (vs : List Value)
        → Ahead context (entries n ∷ vs)
        → (rest : c.Ctx) × (c.read_map context ≡ (some n, rest)) × Ahead rest vs
    pub read_uchar_ahead :
        (context : c.Ctx) (n : ℕ) (vs : List Value)
        → Ahead context (byte n ∷ vs)
        → (rest : c.Ctx) × (c.read_uchar context ≡ (some n, rest)) × Ahead rest vs
    pub read_uint_ahead :
        (context : c.Ctx) (n : ℕ) (vs : List Value)
        → Ahead context (word n ∷ vs)
        → (rest : c.Ctx) × (c.read_uint context ≡ (some n, rest)) × Ahead rest vs
    pub read_str_ahead :
        (context : c.Ctx) (bytes : List ℕ) (vs : List Value) (buf : List ℕ) (size : ℕ)
        → length bytes < size
        → size ≤ length buf
        → Ahead context (text bytes ∷ vs)
        → (rest : c.Ctx) × (c.read_str context buf size
            ≡ (bytes ++ (0 ∷ drop (suc (length bytes)) buf), length bytes, rest))
          × Ahead rest vs

  -- The room that values take.
  abbrev pub size_of_all : IsCmp → List Value → ℕ
  size_of_all k [] = 0
  size_of_all k (v ∷ vs) = k.size_of v + size_of_all k vs

-- What config_write_messagepack writes.
abbrev pub values : Config → List Value
values config =
    entries 8
    ∷ text key_id
    ∷ byte config.id
    ∷ text key_board_name
    ∷ text (c_str config.board_name)
    ∷ text key_device_class
    ∷ text (c_str config.device_class)
    ∷ text key_application_crc
    ∷ word config.application_crc
    ∷ text key_application_size
    ∷ word config.application_size
    ∷ text key_update_count
    ∷ word config.update_count
    ∷ text key_bootloader_commit
    ∷ text (c_str config.bootloader_commit)
    ∷ text key_bootloader_version
    ∷ text (c_str config.bootloader_version)
    ∷ []

pub write_messagepack-values :
    (p : Platform) (context : p.Ctx) (config : Config)
    → config_write_messagepack p context config ≡ write_values p.cmp context (values config)
unfolding config_write_messagepack
write_messagepack-values p context config = refl
