-- ===== src/Config/Saved/Entries.antt =====
-- All tests of config_update_from_serialized behind one key.
use cvra_bootloader.Prelude.{ℕ, ◌<◌, ◌≡◌, refl, ap, ◌∙◌, false, List, ◌∷◌, length}
use cvra_bootloader.Prelude.Chars.{c_str, same, strcmp_eq}
use cvra_bootloader.Platform.{Platform}
use cvra_bootloader.Config.{
  Config, key_id, key_board_name, key_device_class, key_application_crc, key_application_size,
  key_update_count, read_id, read_board_name, read_device_class, read_application_crc,
  read_application_size, read_update_count, update_entry,
}
use cvra_bootloader.Config.Saved.{Value, text, byte, word, IsCmp}
use cvra_bootloader.Config.Saved.Keys.{read_into}
use cvra_bootloader.Config.Saved.Fields.{
  skip_id, skip_board_name, skip_device_class, skip_application_crc, skip_application_size,
  skip_update_count, hit_id, hit_board_name, hit_device_class, hit_application_crc,
  hit_application_size, hit_update_count,
}

module _ (p : Platform) (k : IsCmp p.cmp) where
  -- The tests in turn.
  in_turn :
      (key : List ℕ) (s0 s1 s2 s3 s4 s5 s6 : Config × p.Ctx)
      → read_id p key s0 ≡ s1
      → read_board_name p key s1 ≡ s2
      → read_device_class p key s2 ≡ s3
      → read_application_crc p key s3 ≡ s4
      → read_application_size p key s4 ≡ s5
      → read_update_count p key s5 ≡ s6
      → update_entry p key s0 ≡ s6
  unfolding update_entry
  in_turn key s0 s1 s2 s3 s4 s5 s6 e1 e2 e3 e4 e5 e6 =
      ap (read_update_count p key) (
        ap (read_application_size p key) (
          ap (read_application_crc p key)
            (ap (read_device_class p key) (ap (read_board_name p key) e1 ∙ e2) ∙ e3)
          ∙ e4)
        ∙ e5)
      ∙ e6

  -- The keys differ from each other.
  differs :
      (key mine other : List ℕ)
      → c_str key ≡ mine
      → same (c_str other) mine ≡ false
      → strcmp_eq other key ≡ false
  differs key mine other name e = ap (same (c_str other)) name ∙ e

  pub entry_id :
      (key : List ℕ) (v : ℕ) (vs : List Value) (context : p.Ctx) (config : Config)
      → c_str key ≡ key_id
      → k.Ahead context (byte v ∷ vs)
      → (rest : p.Ctx) × (update_entry p key (config, context) ≡ (record config { id = v }, rest))
        × k.Ahead rest vs
  entry_id key v vs context config name ahead =
      let (rest, e, ahead') = hit_id p k key v vs context config name ahead in
      (
        rest,
        in_turn key _ _ _ _ _ _ _ e
            (skip_board_name p k key _ (differs key key_id key_board_name name refl))
            (skip_device_class p k key _ (differs key key_id key_device_class name refl))
            (skip_application_crc p k key _ (differs key key_id key_application_crc name refl))
            (skip_application_size p k key _ (differs key key_id key_application_size name refl))
            (skip_update_count p k key _ (differs key key_id key_update_count name refl)),
        ahead',
      )

  pub entry_board_name :
      (key bytes : List ℕ) (vs : List Value) (context : p.Ctx) (config : Config)
      → c_str key ≡ key_board_name
      → length bytes < 65
      → length config.board_name ≡ 65
      → k.Ahead context (text bytes ∷ vs)
      → (rest : p.Ctx) × (update_entry p key (config, context)
          ≡ (record config { board_name = read_into bytes config.board_name }, rest))
        × k.Ahead rest vs
  entry_board_name key bytes vs context config name short size ahead =
      let (rest, e, ahead') =
        hit_board_name p k key bytes vs context config name short size ahead in
      (
        rest,
        in_turn key _ _ _ _ _ _ _ (skip_id p k key _ (differs key key_board_name key_id name refl))
            e (skip_device_class p k key _ (differs key key_board_name key_device_class name refl))
            (skip_application_crc p k key _
              (differs key key_board_name key_application_crc name refl))
            (skip_application_size p k key _
              (differs key key_board_name key_application_size name refl))
            (skip_update_count p k key _ (differs key key_board_name key_update_count name refl)),
        ahead',
      )

  pub entry_device_class :
      (key bytes : List ℕ) (vs : List Value) (context : p.Ctx) (config : Config)
      → c_str key ≡ key_device_class
      → length bytes < 65
      → length config.device_class ≡ 65
      → k.Ahead context (text bytes ∷ vs)
      → (rest : p.Ctx) × (update_entry p key (config, context)
          ≡ (record config { device_class = read_into bytes config.device_class }, rest))
        × k.Ahead rest vs
  entry_device_class key bytes vs context config name short size ahead =
      let (rest, e, ahead') =
        hit_device_class p k key bytes vs context config name short size ahead in
      (
        rest,
        in_turn key _ _ _ _ _ _ _
            (skip_id p k key _ (differs key key_device_class key_id name refl))
            (skip_board_name p k key _ (differs key key_device_class key_board_name name refl)) e
            (skip_application_crc p k key _
              (differs key key_device_class key_application_crc name refl))
            (skip_application_size p k key _
              (differs key key_device_class key_application_size name refl))
            (skip_update_count p k key _ (differs key key_device_class key_update_count name refl)),
        ahead',
      )

  pub entry_application_crc :
      (key : List ℕ) (v : ℕ) (vs : List Value) (context : p.Ctx) (config : Config)
      → c_str key ≡ key_application_crc
      → k.Ahead context (word v ∷ vs)
      → (rest : p.Ctx) × (update_entry p key (config, context)
          ≡ (record config { application_crc = v }, rest))
        × k.Ahead rest vs
  entry_application_crc key v vs context config name ahead =
      let (rest, e, ahead') = hit_application_crc p k key v vs context config name ahead in
      (
        rest,
        in_turn key _ _ _ _ _ _ _
            (skip_id p k key _ (differs key key_application_crc key_id name refl))
            (skip_board_name p k key _ (differs key key_application_crc key_board_name name refl))
            (skip_device_class p k key _
              (differs key key_application_crc key_device_class name refl))
            e
            (skip_application_size p k key _
              (differs key key_application_crc key_application_size name refl))
            (skip_update_count p k key _
              (differs key key_application_crc key_update_count name refl)),
        ahead',
      )

  pub entry_application_size :
      (key : List ℕ) (v : ℕ) (vs : List Value) (context : p.Ctx) (config : Config)
      → c_str key ≡ key_application_size
      → k.Ahead context (word v ∷ vs)
      → (rest : p.Ctx) × (update_entry p key (config, context)
          ≡ (record config { application_size = v }, rest))
        × k.Ahead rest vs
  entry_application_size key v vs context config name ahead =
      let (rest, e, ahead') = hit_application_size p k key v vs context config name ahead in
      (
        rest,
        in_turn key _ _ _ _ _ _ _
            (skip_id p k key _ (differs key key_application_size key_id name refl))
            (skip_board_name p k key _ (differs key key_application_size key_board_name name refl))
            (skip_device_class p k key _
              (differs key key_application_size key_device_class name refl))
            (skip_application_crc p k key _
              (differs key key_application_size key_application_crc name refl))
            e
            (skip_update_count p k key _
              (differs key key_application_size key_update_count name refl)),
        ahead',
      )

  pub entry_update_count :
      (key : List ℕ) (v : ℕ) (vs : List Value) (context : p.Ctx) (config : Config)
      → c_str key ≡ key_update_count
      → k.Ahead context (word v ∷ vs)
      → (rest : p.Ctx) × (update_entry p key (config, context)
          ≡ (record config { update_count = v }, rest))
        × k.Ahead rest vs
  entry_update_count key v vs context config name ahead =
      let (rest, e, ahead') = hit_update_count p k key v vs context config name ahead in
      (
        rest,
        in_turn key _ _ _ _ _ _ _
            (skip_id p k key _ (differs key key_update_count key_id name refl))
            (skip_board_name p k key _ (differs key key_update_count key_board_name name refl))
            (skip_device_class p k key _ (differs key key_update_count key_device_class name refl))
            (skip_application_crc p k key _
              (differs key key_update_count key_application_crc name refl))
            (skip_application_size p k key _
              (differs key key_update_count key_application_size name refl))
            e,
        ahead',
      )

  -- A key that is none of the six.
  pub record IsOther (key : List ℕ) : Type 0 where
    pub not_id : strcmp_eq key_id key ≡ false
    pub not_board_name : strcmp_eq key_board_name key ≡ false
    pub not_device_class : strcmp_eq key_device_class key ≡ false
    pub not_application_crc : strcmp_eq key_application_crc key ≡ false
    pub not_application_size : strcmp_eq key_application_size key ≡ false
    pub not_update_count : strcmp_eq key_update_count key ≡ false

  pub entry_other : (key : List ℕ) (s : Config × p.Ctx) → IsOther key → update_entry p key s ≡ s
  entry_other key s o =
      in_turn key s s s s s s s (skip_id p k key s o.not_id)
        (skip_board_name p k key s o.not_board_name)
        (skip_device_class p k key s o.not_device_class)
        (skip_application_crc p k key s o.not_application_crc)
        (skip_application_size p k key s o.not_application_size)
        (skip_update_count p k key s o.not_update_count)
