-- ===== src/Config/Saved/Rounds.antt =====
-- The rounds of the loop of config_update_from_serialized over the entries of a configuration.
use cvra_bootloader.Prelude.{ℕ, suc, ◌<◌, ◌≡◌, refl, sym, ap, ◌∙◌, List, ◌∷◌, length, arith}
use cvra_bootloader.Prelude.Chars.{c_str, same}
use cvra_bootloader.Platform.{Platform}
use cvra_bootloader.Config.{
  Config, key_id, key_board_name, key_device_class, key_application_crc, key_application_size,
  key_update_count, key_bootloader_commit, update_entries,
}
use cvra_bootloader.Config.Saved.{Value, text, byte, word, IsCmp}
use cvra_bootloader.Config.Saved.Keys.{read_into, length-read_into, key_read}
use cvra_bootloader.Config.Saved.Entries.{
  entry_id, entry_board_name, entry_device_class, entry_application_crc, entry_application_size,
  entry_update_count, IsOther, entry_other,
}

module _ (p : Platform) (k : IsCmp p.cmp) where
  pub round_id :
      (n : ℕ) (key : List ℕ) (v : ℕ) (vs : List Value) (context : p.Ctx) (config : Config)
      → length key ≡ 64
      → k.Ahead context (text key_id ∷ byte v ∷ vs)
      → (rest : p.Ctx) × (update_entries p (suc n) key (config, context)
          ≡ update_entries p n (read_into key_id key) (record config { id = v }, rest))
        × k.Ahead rest vs
  round_id n key v vs context config size ahead =
      let key' = read_into key_id key in
      let (at_value, e, ahead1) =
        key_read p k n key key_id (byte v ∷ vs) context config ahead (omega arith) size in
      let (rest, e', ahead2) = entry_id p k key' v vs at_value config refl ahead1 in
      (rest, e ∙ ap (update_entries p n key') e', ahead2)

  pub round_board_name :
      (n : ℕ) (key : List ℕ) (bytes : List ℕ) (vs : List Value) (context : p.Ctx) (config : Config)
      → length key ≡ 64
      → length bytes < 65
      → length config.board_name ≡ 65
      → k.Ahead context (text key_board_name ∷ text bytes ∷ vs)
      → (rest : p.Ctx) × (update_entries p (suc n) key (config, context)
          ≡ update_entries p n
              (read_into key_board_name key)
              (record config { board_name = read_into bytes config.board_name }, rest))
        × k.Ahead rest vs
  round_board_name n key bytes vs context config size short wide ahead =
      let key' = read_into key_board_name key in
      let (at_value, e, ahead1) =
        key_read p k n key key_board_name (text bytes ∷ vs) context config ahead (omega arith)
          size in
      let (rest, e', ahead2) =
        entry_board_name p k key' bytes vs at_value config refl short wide ahead1 in
      (rest, e ∙ ap (update_entries p n key') e', ahead2)

  pub round_device_class :
      (n : ℕ) (key : List ℕ) (bytes : List ℕ) (vs : List Value) (context : p.Ctx) (config : Config)
      → length key ≡ 64
      → length bytes < 65
      → length config.device_class ≡ 65
      → k.Ahead context (text key_device_class ∷ text bytes ∷ vs)
      → (rest : p.Ctx) × (update_entries p (suc n) key (config, context)
          ≡ update_entries p n
              (read_into key_device_class key)
              (record config { device_class = read_into bytes config.device_class }, rest))
        × k.Ahead rest vs
  round_device_class n key bytes vs context config size short wide ahead =
      let key' = read_into key_device_class key in
      let (at_value, e, ahead1) =
        key_read p k n key key_device_class (text bytes ∷ vs) context config ahead (omega arith)
          size in
      let (rest, e', ahead2) =
        entry_device_class p k key' bytes vs at_value config refl short wide ahead1 in
      (rest, e ∙ ap (update_entries p n key') e', ahead2)

  pub round_application_crc :
      (n : ℕ) (key : List ℕ) (v : ℕ) (vs : List Value) (context : p.Ctx) (config : Config)
      → length key ≡ 64
      → k.Ahead context (text key_application_crc ∷ word v ∷ vs)
      → (rest : p.Ctx) × (update_entries p (suc n) key (config, context)
          ≡ update_entries p n
              (read_into key_application_crc key)
              (record config { application_crc = v }, rest))
        × k.Ahead rest vs
  round_application_crc n key v vs context config size ahead =
      let key' = read_into key_application_crc key in
      let (at_value, e, ahead1) =
        key_read p k n key key_application_crc (word v ∷ vs) context config ahead (omega arith)
          size in
      let (rest, e', ahead2) = entry_application_crc p k key' v vs at_value config refl ahead1 in
      (rest, e ∙ ap (update_entries p n key') e', ahead2)

  pub round_application_size :
      (n : ℕ) (key : List ℕ) (v : ℕ) (vs : List Value) (context : p.Ctx) (config : Config)
      → length key ≡ 64
      → k.Ahead context (text key_application_size ∷ word v ∷ vs)
      → (rest : p.Ctx) × (update_entries p (suc n) key (config, context)
          ≡ update_entries p n
              (read_into key_application_size key)
              (record config { application_size = v }, rest))
        × k.Ahead rest vs
  round_application_size n key v vs context config size ahead =
      let key' = read_into key_application_size key in
      let (at_value, e, ahead1) =
        key_read p k n key key_application_size (word v ∷ vs) context config ahead (omega arith)
          size in
      let (rest, e', ahead2) = entry_application_size p k key' v vs at_value config refl ahead1 in
      (rest, e ∙ ap (update_entries p n key') e', ahead2)

  pub round_update_count :
      (n : ℕ) (key : List ℕ) (v : ℕ) (vs : List Value) (context : p.Ctx) (config : Config)
      → length key ≡ 64
      → k.Ahead context (text key_update_count ∷ word v ∷ vs)
      → (rest : p.Ctx) × (update_entries p (suc n) key (config, context)
          ≡ update_entries p n
              (read_into key_update_count key)
              (record config { update_count = v }, rest))
        × k.Ahead rest vs
  round_update_count n key v vs context config size ahead =
      let key' = read_into key_update_count key in
      let (at_value, e, ahead1) =
        key_read p k n key key_update_count (word v ∷ vs) context config ahead (omega arith) size in
      let (rest, e', ahead2) = entry_update_count p k key' v vs at_value config refl ahead1 in
      (rest, e ∙ ap (update_entries p n key') e', ahead2)

  pub round_other :
      (n : ℕ) (key bytes : List ℕ) (vs : List Value) (context : p.Ctx) (config : Config)
      → length key ≡ 64
      → length bytes < 64
      → IsOther p k (read_into bytes key)
      → k.Ahead context (text bytes ∷ vs)
      → (rest : p.Ctx) × (update_entries p (suc n) key (config, context)
          ≡ update_entries p n (read_into bytes key) (config, rest))
        × k.Ahead rest vs
  round_other n key bytes vs context config size short other ahead =
      let (rest, e, ahead1) = key_read p k n key bytes vs context config ahead short size in
      (
        rest,
        e
            ∙ ap (update_entries p n (read_into bytes key))
                (entry_other p k (read_into bytes key) (config, rest) other),
        ahead1,
      )

  pub commit-IsOther : (key : List ℕ) → IsOther p k (read_into key_bootloader_commit key)
  commit-IsOther key = record {
    not_id = refl;
    not_board_name = refl;
    not_device_class = refl;
    not_application_crc = refl;
    not_application_size = refl;
    not_update_count = refl;
  }

  pub IsOther-same : (a b : List ℕ) → c_str a ≡ c_str b → IsOther p k a → IsOther p k b
  IsOther-same a b e o = record {
    not_id = sym (ap (same (c_str key_id)) e) ∙ o.not_id;
    not_board_name = sym (ap (same (c_str key_board_name)) e) ∙ o.not_board_name;
    not_device_class = sym (ap (same (c_str key_device_class)) e) ∙ o.not_device_class;
    not_application_crc = sym (ap (same (c_str key_application_crc)) e) ∙ o.not_application_crc;
    not_application_size = sym (ap (same (c_str key_application_size)) e) ∙ o.not_application_size;
    not_update_count = sym (ap (same (c_str key_update_count)) e) ∙ o.not_update_count;
  }

  pub wide :
      (bytes key : List ℕ) → length key ≡ 64 → length bytes < 64 → length (read_into bytes key) ≡ 64
  wide bytes key size short = length-read_into bytes key (omega (arith, size, short)) ∙ size
