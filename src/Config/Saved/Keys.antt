-- ===== src/Config/Saved/Keys.antt =====
-- The keys of config_update_from_serialized: strings that cmp reads into the array `key`.
use cvra_bootloader.Prelude.{
  ℕ, zero, suc, ◌<◌, ◌≡◌, refl, ap, ◌∙◌, true, List, [], ◌∷◌, ◌++◌, Option, some, none, length,
  drop, set, ltb, arith, length-append, length-drop,
}
use cvra_bootloader.Prelude.Chars.{c_str, same}
use cvra_bootloader.Platform.{Platform}
use cvra_bootloader.Datagram.{store}
use cvra_bootloader.Config.{Config, update_entry, update_entries}
use cvra_bootloader.Config.Saved.{Value, text, IsCmp}

pub c_str-append : (xs r : List ℕ) → c_str (c_str xs ++ (0 ∷ r)) ≡ c_str xs
c_str-append [] r = refl
c_str-append (zero ∷ xs) r = refl
c_str-append (suc x ∷ xs) r = ap (◌∷◌ (suc x)) (c_str-append xs r)

set-append : (xs r : List ℕ) (a b : ℕ) → set (xs ++ (a ∷ r)) (length xs) b ≡ xs ++ (b ∷ r)
set-append [] r a b = refl
set-append (x ∷ xs) r a b = ap (◌∷◌ x) (set-append xs r a b)

-- A string with its NUL, read into an array.
abbrev pub read_into : List ℕ → List ℕ → List ℕ
read_into bytes buf = bytes ++ (0 ∷ drop (suc (length bytes)) buf)

pub length-read_into :
    (bytes buf : List ℕ) → length bytes < length buf → length (read_into bytes buf) ≡ length buf
length-read_into bytes buf l = omega (
  arith,
  length-append bytes (0 ∷ drop (suc (length bytes)) buf),
  length-drop (suc (length bytes)) buf,
)

module _ (p : Platform) (k : IsCmp p.cmp) where
  -- The loop body behind cmp_read_str.
  abbrev key_behind : ℕ → Config → List ℕ × ℕ × p.Ctx → Option (Config × p.Ctx)
  key_behind n config (key, key_len, rest) = elim (store key key_len 0) [
    | none ↦ none
    | some key' ↦ update_entries p n key' (update_entry p key' (config, rest))
  ]

  key_stored :
      (n : ℕ) (config : Config) (key : List ℕ) (key_len : ℕ) (rest : p.Ctx)
      → ltb key_len (length key) ≡ true
      → set key key_len 0 ≡ key
      → key_behind n config (key, key_len, rest)
        ≡ update_entries p n key (update_entry p key (config, rest))
  key_stored n config key key_len rest room same =
      rw (room, key_behind)
        (ap (λ key'. update_entries p n key' (update_entry p key' (config, rest))) same)

  -- The key of an entry.
  pub key_read :
      (n : ℕ) (key bytes : List ℕ) (vs : List Value) (context : p.Ctx) (config : Config)
      → k.Ahead context (text bytes ∷ vs)
      → length bytes < 64
      → length key ≡ 64
      → (rest : p.Ctx) × (update_entries p (suc n) key (config, context)
          ≡ update_entries p n
              (read_into bytes key)
              (update_entry p (read_into bytes key) (config, rest)))
        × k.Ahead rest vs
  unfolding update_entries
  key_read n key bytes vs context config ahead short size =
      let (rest, e, ahead') =
        k.read_str_ahead context bytes vs key 64 short (omega (arith, size)) ahead in
      let room : ltb (length bytes) (length (read_into bytes key)) ≡ true =
        ground (arith, length-read_into bytes key (omega (arith, size, short)), size, short) in
      let same : set (read_into bytes key) (length bytes) 0 ≡ read_into bytes key =
        set-append bytes (drop (suc (length bytes)) key) 0 0 in
      (
        rest,
        ap (key_behind n config) e
            ∙ key_stored n config (read_into bytes key) (length bytes) rest room same,
        ahead',
      )
