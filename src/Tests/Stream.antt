-- ===== src/Tests/Stream.antt =====
-- A cmp that keeps one number per value and a string behind its length, and the round trip of the
-- configuration through it.
use cvra_bootloader.Prelude.{
  ℕ, suc, ◌+◌, ◌≤◌, ◌≡◌, refl, sym, ap, ◌∙◌, List, [], ◌∷◌, ◌++◌, Option, some, none, length, drop,
  take, arith, append_assoc, append-nil, replicate,
}
use cvra_bootloader.Prelude.Chars.{c_str}
use cvra_bootloader.Platform.{Cmp, Platform}
use cvra_bootloader.Config.{Config, config_write, config_read}
use cvra_bootloader.Config.Saved.{
  Value, entries, text, byte, word, IsCmp, write_value, size_of_all, values,
}
use cvra_bootloader.Config.Saved.Entries.{IsOther}
use cvra_bootloader.Config.Saved.RoundTrip.{config_read-config_write}
use cvra_bootloader.Tests.Toy.{toy, config}

abbrev next : List ℕ → Option ℕ × List ℕ
next [] = (none, [])
next (x ∷ xs) = (some x, xs)

abbrev next_text : List ℕ → List ℕ → ℕ → List ℕ × ℕ × List ℕ
next_text [] buf size = (buf, size, [])
next_text (n ∷ xs) buf size = (take n xs ++ (0 ∷ drop (suc n) buf), n, drop n xs)

abbrev stream_cmp : Cmp
stream_cmp = record {
  Ctx = List ℕ;
  ro_init = λ mem n. mem;
  init = λ mem n. [];
  get_pos = λ c. length c;
  memory = λ c. c;
  read_uinteger = next;
  read_uint = next;
  read_u32 = next;
  read_uchar = next;
  read_int = next;
  read_array = next;
  read_map = next;
  read_bin_size = next;
  read_str = next_text;
  write_uint = λ c v. c ++ (v ∷ []);
  write_u8 = λ c v. c ++ (v ∷ []);
  write_bool = λ c v. c ++ (v ∷ []);
  write_bin = λ c bytes. c ++ (length bytes ∷ bytes);
  write_str = λ c bytes. c ++ (length bytes ∷ bytes);
  write_map = λ c n. c ++ (n ∷ []);
}

abbrev encoded : Value → List ℕ
encoded (entries n) = n ∷ []
encoded (text bytes) = length bytes ∷ bytes
encoded (byte n) = n ∷ []
encoded (word n) = n ∷ []

abbrev all_encoded : List Value → List ℕ
all_encoded [] = []
all_encoded (v ∷ vs) = encoded v ++ all_encoded vs

all_encoded-append :
    (vs : List Value) (v : Value) → all_encoded (vs ++ (v ∷ [])) ≡ all_encoded vs ++ encoded v
all_encoded-append [] v = append-nil (encoded v)
all_encoded-append (w ∷ vs) v =
    ap (λ l. encoded w ++ l) (all_encoded-append vs v)
    ∙ sym (append_assoc (encoded w) (all_encoded vs) (encoded v))

written : (c : List ℕ) (v : Value) → write_value stream_cmp c v ≡ c ++ encoded v
written c (entries n) = refl
written c (text bytes) = refl
written c (byte n) = refl
written c (word n) = refl

take-append : (xs ys : List ℕ) → take (length xs) (xs ++ ys) ≡ xs
take-append [] ys = refl
take-append (x ∷ xs) ys = ap (◌∷◌ x) (take-append xs ys)

drop-append : (xs ys : List ℕ) → drop (length xs) (xs ++ ys) ≡ ys
drop-append [] ys = refl
drop-append (x ∷ xs) ys = drop-append xs ys

-- The values are the next in the stream.
abbrev AreNext : List ℕ → List Value → Type 0
AreNext c vs = c ≡ all_encoded vs

stream_laws : IsCmp stream_cmp
stream_laws = record {
  Wrote = λ n c vs room. AreNext c vs;
  Ahead = AreNext;
  size_of = λ v. 1;
  init_wrote = λ memory n l. refl;
  write_wrote =
      λ n c vs v room f e. written c v ∙ ap (λ l. l ++ encoded v) e ∙ sym (all_encoded-append vs v);
  memory_ahead = λ n c vs room e. e;
  read_map_ahead = λ c n vs e. (all_encoded vs, ap next e, refl);
  read_uchar_ahead = λ c n vs e. (all_encoded vs, ap next e, refl);
  read_uint_ahead = λ c n vs e. (all_encoded vs, ap next e, refl);
  read_str_ahead = λ c bytes vs buf size l l' e. (
    all_encoded vs,
    ap (λ s. next_text s buf size) e ∙ text_next bytes (all_encoded vs) buf size,
    refl,
  );
}
  where
    text_next :
        (bytes rest buf : List ℕ) (size : ℕ)
        → next_text (length bytes ∷ bytes ++ rest) buf size
          ≡ (bytes ++ (0 ∷ drop (suc (length bytes)) buf), length bytes, rest)
    text_next bytes rest buf size = rw (take-append bytes rest, drop-append bytes rest) refl

abbrev on_stream : Platform
on_stream = record toy { cmp = stream_cmp }

abbrev saved : Config
saved = record config { application_crc = 1234; application_size = 500; update_count = 7 }

-- What the variables hold before.
abbrev unset : Config
unset = record config { board_name = replicate 65 0; device_class = replicate 65 0 }

room_is_enough : size_of_all stream_cmp stream_laws (values saved) + 4 ≤ 200
unfolding stream_laws
room_is_enough = omega arith

config_read-config_write_example :
    (config' : Config) × (config_read on_stream unset
        (replicate 64 0)
        (config_write on_stream (replicate 200 0) saved 200)
        200
      ≡ some config')
    × (config'.id ≡ 5)
    × (c_str config'.board_name ≡ 98 ∷ [])
    × (c_str config'.device_class ≡ 97 ∷ [])
    × (config'.application_crc ≡ 1234)
    × (config'.application_size ≡ 500)
    × (config'.update_count ≡ 7)
config_read-config_write_example =
    config_read-config_write on_stream stream_laws saved unset (replicate 64 0) (replicate 200 0)
      200 (omega arith) (omega arith) (omega arith) (omega arith) (omega arith) (omega arith)
      (omega arith) (omega arith) commit-IsOther refl refl refl (omega arith) (omega arith)
      room_is_enough
  where
    commit-IsOther : IsOther on_stream stream_laws saved.bootloader_commit
    commit-IsOther = record {
      not_id = refl;
      not_board_name = refl;
      not_device_class = refl;
      not_application_crc = refl;
      not_application_size = refl;
      not_update_count = refl;
    }
