-- ===== src/Config/Saved/RoundTrip.antt =====
-- A configuration through config_write and config_read.
use mathlib.Core.Path.{subst}
use cvra_bootloader.Prelude.{
  ℕ, suc, ◌+◌, ◌-◌, ◌^◌, ◌≤◌, ◌<◌, ◌≡◌, refl, sym, ap, ◌∙◌, List, [], ◌∷◌, some, length, drop,
  arith, length-drop,
}
use cvra_bootloader.Prelude.Chars.{c_str}
use cvra_bootloader.Platform.{Platform}
use cvra_bootloader.Config.{
  Config, key_id, key_board_name, key_device_class, key_application_crc, key_application_size,
  key_update_count, key_bootloader_commit, or_old, update_entries, config_write_messagepack,
  config_write, config_update_from_serialized, config_read,
}
use cvra_bootloader.Config.Saved.{
  Value, text, byte, word, IsCmp, size_of_all, values, write_messagepack-values,
}
use cvra_bootloader.Config.Saved.Keys.{read_into, c_str-append}
use cvra_bootloader.Config.Saved.Entries.{IsOther}
use cvra_bootloader.Config.Saved.Rounds.{
  round_id, round_board_name, round_device_class, round_application_crc, round_application_size,
  round_update_count, round_other, commit-IsOther, IsOther-same, wide,
}
use cvra_bootloader.Config.Saved.Written.{wrote_all, fits_all, config_read-some, drop-config_write}

module _ (p : Platform) (k : IsCmp p.cmp) where
  -- The configuration that is read, over what the variables held before.
  abbrev pub restored : Config → Config → Config
  restored config old = record old {
    id = config.id;
    board_name = read_into (c_str config.board_name) old.board_name;
    device_class = read_into (c_str config.device_class) old.device_class;
    application_crc = config.application_crc;
    application_size = config.application_size;
    update_count = config.update_count;
  }

  -- The entries up to the device class.
  read_texts :
      (n : ℕ) (config old : Config) (key : List ℕ) (vs : List Value) (context : p.Ctx)
      → length key ≡ 64
      → length (c_str config.board_name) < 65
      → length (c_str config.device_class) < 65
      → length old.board_name ≡ 65
      → length old.device_class ≡ 65
      → k.Ahead context (
          text key_id
          ∷ byte config.id
          ∷ text key_board_name
          ∷ text (c_str config.board_name)
          ∷ text key_device_class
          ∷ text (c_str config.device_class)
          ∷ vs)
      → (key' : List ℕ) × (rest : p.Ctx) × (length key' ≡ 64)
        × (update_entries p (suc (suc (suc n))) key (old, context)
            ≡ update_entries p n key' (
              record old {
                id = config.id;
                board_name = read_into (c_str config.board_name) old.board_name;
                device_class = read_into (c_str config.device_class) old.device_class;
              },
              rest,
            ))
        × k.Ahead rest vs
  read_texts n config old key vs context size name class wide_name wide_class ahead =
      let key1 = read_into key_id key in
      let w1 = wide p k key_id key size (omega arith) in
      let (c1, e1, a1) = round_id p k (suc (suc n)) key config.id _ context old size ahead in
      let old1 : Config = record old { id = config.id } in
      let key2 = read_into key_board_name key1 in
      let w2 = wide p k key_board_name key1 w1 (omega arith) in
      let (c2, e2, a2) =
        round_board_name p k (suc n) key1 (c_str config.board_name) _ c1 old1 w1 name wide_name
          a1 in
      let old2 : Config = record old1 {
        board_name = read_into (c_str config.board_name) old.board_name;
      } in
      let w3 = wide p k key_device_class key2 w2 (omega arith) in
      let (c3, e3, a3) =
        round_device_class p k n key2 (c_str config.device_class) _ c2 old2 w2 class wide_class
          a2 in
      (read_into key_device_class key2, c3, w3, e1 ∙ e2 ∙ e3, a3)

  -- The entries with the numbers of the application and of the updates.
  read_numbers :
      (n : ℕ) (config old : Config) (key : List ℕ) (vs : List Value) (context : p.Ctx)
      → length key ≡ 64
      → k.Ahead context (
          text key_application_crc
          ∷ word config.application_crc
          ∷ text key_application_size
          ∷ word config.application_size
          ∷ text key_update_count
          ∷ word config.update_count
          ∷ vs)
      → (key' : List ℕ) × (rest : p.Ctx) × (length key' ≡ 64)
        × (update_entries p (suc (suc (suc n))) key (old, context)
            ≡ update_entries p n key' (
              record old {
                application_crc = config.application_crc;
                application_size = config.application_size;
                update_count = config.update_count;
              },
              rest,
            ))
        × k.Ahead rest vs
  read_numbers n config old key vs context size ahead =
      let key1 = read_into key_application_crc key in
      let w1 = wide p k key_application_crc key size (omega arith) in
      let (c1, e1, a1) =
        round_application_crc p k (suc (suc n)) key config.application_crc _ context old size
          ahead in
      let old1 : Config = record old { application_crc = config.application_crc } in
      let key2 = read_into key_application_size key1 in
      let w2 = wide p k key_application_size key1 w1 (omega arith) in
      let (c2, e2, a2) =
        round_application_size p k (suc n) key1 config.application_size _ c1 old1 w1 a1 in
      let old2 : Config = record old1 { application_size = config.application_size } in
      let w3 = wide p k key_update_count key2 w2 (omega arith) in
      let (c3, e3, a3) = round_update_count p k n key2 config.update_count _ c2 old2 w2 a2 in
      (read_into key_update_count key2, c3, w3, e1 ∙ e2 ∙ e3, a3)

  -- Behind them the commit's key and the commit itself are taken for keys.
  read_commit :
      (config old : Config) (key : List ℕ) (vs : List Value) (context : p.Ctx)
      → length key ≡ 64
      → length (c_str config.bootloader_commit) < 64
      → IsOther p k config.bootloader_commit
      → k.Ahead context (text key_bootloader_commit ∷ text (c_str config.bootloader_commit) ∷ vs)
      → (rest : p.Ctx) × (update_entries p 2 key (old, context) ≡ some (old, rest))
  unfolding update_entries
  read_commit config old key vs context size short other ahead =
      let key1 = read_into key_bootloader_commit key in
      let w1 = wide p k key_bootloader_commit key size (omega arith) in
      let (c1, e1, a1) =
        round_other p k 1 key key_bootloader_commit _ context old size (omega arith)
          (commit-IsOther p k key) ahead in
      let (c2, e2, a2) =
        round_other p k 0 key1 (c_str config.bootloader_commit) _ c1 old w1 short
          (IsOther-same p k config.bootloader_commit
            (read_into (c_str config.bootloader_commit) key1)
            (sym (c_str-append config.bootloader_commit _)) other)
          a1 in
      (c2, e1 ∙ e2)

  read_values :
      (config old : Config) (key : List ℕ) (context : p.Ctx)
      → length key ≡ 64
      → length (c_str config.board_name) < 65
      → length (c_str config.device_class) < 65
      → length (c_str config.bootloader_commit) < 64
      → length old.board_name ≡ 65
      → length old.device_class ≡ 65
      → IsOther p k config.bootloader_commit
      → k.Ahead context (values config)
      → (rest : p.Ctx) × (config_update_from_serialized p old key context
          ≡ some (restored config old, rest))
  unfolding config_update_from_serialized
  read_values config old key context size name class commit wide_name wide_class other ahead =
      let (c0, e0, a0) = k.read_map_ahead context 8 _ ahead in
      let (key1, c1, w1, e1, a1) =
        read_texts 5 config old key _ c0 size name class wide_name wide_class a0 in
      let (key2, c2, w2, e2, a2) = read_numbers 2 config _ key1 _ c1 w1 a1 in
      let (c3, e3) = read_commit config _ key2 _ c2 w2 commit other a2 in
      (c3, ap (λ r. update_entries p (or_old r.0 0) key (old, r.1)) e0 ∙ e1 ∙ e2 ∙ e3)

  -- A configuration that config_write puts into a buffer is read back by config_read: the identifier, the
  -- name and the device class as strings, the application's checksum and size, and the update count.
  -- The conditions: the numbers fit their C types, the name and the class have at most 64 characters,
  -- the commit at most 63, and is none of the keys, the version is below 4 gigabytes long, the
  -- MessagePack fits into the buffer behind its checksum, the variables that config_read does not
  -- initialise are arrays of their sizes, and cmp works as IsCmp says.
  pub config_read-config_write :
      (config old : Config) (key buffer : List ℕ) (size : ℕ)
      → config.id < 2 ^ 8
      → config.application_crc < 2 ^ 32
      → config.application_size < 2 ^ 32
      → config.update_count < 2 ^ 32
      → length (c_str config.board_name) < 65
      → length (c_str config.device_class) < 65
      → length (c_str config.bootloader_commit) < 64
      → length (c_str config.bootloader_version) < 2 ^ 32
      → IsOther p k config.bootloader_commit
      → length key ≡ 64
      → length old.board_name ≡ 65
      → length old.device_class ≡ 65
      → 4 ≤ size
      → size ≤ length buffer
      → size_of_all p.cmp k (values config) + 4 ≤ size
      → (config' : Config) × (config_read p old key (config_write p buffer config size) size
          ≡ some config')
        × (config'.id ≡ config.id)
        × (c_str config'.board_name ≡ c_str config.board_name)
        × (c_str config'.device_class ≡ c_str config.device_class)
        × (config'.application_crc ≡ config.application_crc)
        × (config'.application_size ≡ config.application_size)
        × (config'.update_count ≡ config.update_count)
  config_read-config_write config old key buffer size id crc asize count name class commit version
        other wide_key wide_name wide_class head fits room =
      let n = size - 4 in
      let start = p.init (drop 4 buffer) n in
      let context = config_write_messagepack p start config in
      let w0 : k.Wrote n start [] n =
        k.init_wrote (drop 4 buffer) n (omega (arith, length-drop 4 buffer)) in
      let e : n ≡ size_of_all p.cmp k (values config) + (n - size_of_all p.cmp k (values config)) =
        omega arith in
      let wrote =
        wrote_all p k n (values config) start [] (n - size_of_all p.cmp k (values config))
          (fits_all p k config id crc asize count name class commit version)
          (subst (λ r. k.Wrote n start [] r) e w0) in
      let ahead : k.Ahead (p.ro_init (p.memory context) n) (values config) =
        k.memory_ahead n context (values config) _ (
          subst (λ c. k.Wrote n c (values config) (n - size_of_all p.cmp k (values config)))
            (sym (write_messagepack-values p start config)) wrote) in
      let (rest, r) =
        read_values config old key (p.ro_init (p.memory context) n) wide_key name class commit
          wide_name wide_class other ahead in
      let same_memory : drop 4 (config_write p buffer config size) ≡ p.memory context =
        drop-config_write p k buffer config size (omega arith) in
      (
        restored config old,
        config_read-some p k old (restored config old) key (config_write p buffer config size) size
            rest
            (ap (λ m. config_update_from_serialized p old key (p.ro_init m n)) same_memory ∙ r),
        refl,
        c_str-append config.board_name _,
        c_str-append config.device_class _,
        refl,
        refl,
        refl,
      )
