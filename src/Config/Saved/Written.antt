-- ===== src/Config/Saved/Written.antt =====
-- What config_write leaves in its buffer, and where config_read begins.
use mathlib.Core.Path.{subst}
use cvra_bootloader.Prelude.{
  ℕ, zero, suc, ◌+◌, ◌-◌, ◌^◌, ◌≤◌, ◌<◌, ◌≡◌, refl, sym, List, [], ◌∷◌, ◌++◌, some, length, drop,
  take, arith, append_assoc, append-nil,
}
use cvra_bootloader.Prelude.Chars.{c_str}
use cvra_bootloader.Platform.{Platform}
use cvra_bootloader.Config.{
  Config, config_write_messagepack, config_write, config_update_from_serialized, config_read,
}
use cvra_bootloader.Config.Saved.{
  Value, FitsValue, IsCmp, write_value, write_values, size_of_all, values,
}

abbrev pub AllFit : List Value → Type 0
AllFit [] = Unit
AllFit (v ∷ vs) = FitsValue v × AllFit vs

drop-take-append : (n : ℕ) (xs ys : List ℕ) → n ≤ length xs → drop n (take n xs ++ ys) ≡ ys
drop-take-append zero xs ys l = refl
drop-take-append (suc n) [] ys l = absurd (omega arith)
drop-take-append (suc n) (x ∷ xs) ys l = drop-take-append n xs ys (omega arith)

module _ (p : Platform) (k : IsCmp p.cmp) where
  pub wrote_all :
      (n : ℕ) (vs : List Value) (context : p.Ctx) (before : List Value) (room : ℕ)
      → AllFit vs
      → k.Wrote n context before (size_of_all p.cmp k vs + room)
      → k.Wrote n (write_values p.cmp context vs) (before ++ vs) room
  wrote_all n [] context before room fits w =
      subst (λ l. k.Wrote n context l room) (sym (append-nil before))
        (subst (λ r. k.Wrote n context before r) (omega arith) w)
  wrote_all n (v ∷ vs) context before room (f, fits) w =
      let e : k.size_of v + size_of_all p.cmp k vs + room
          ≡ k.size_of v + (size_of_all p.cmp k vs + room) =
        omega arith in
      let one =
        k.write_wrote n context before v (size_of_all p.cmp k vs + room) f
          (subst (λ r. k.Wrote n context before r) e w) in
      subst (λ l. k.Wrote n (write_values p.cmp (write_value p.cmp context v) vs) l room)
        (append_assoc before (v ∷ []) vs)
        (wrote_all n vs (write_value p.cmp context v) (before ++ (v ∷ [])) room fits one)

  pub config_read-some :
      (old config : Config) (key bytes : List ℕ) (size : ℕ) (rest : p.Ctx)
      → config_update_from_serialized p old key (p.ro_init (drop 4 bytes) (size - 4))
        ≡ some (config, rest)
      → config_read p old key bytes size ≡ some config
  unfolding config_read
  config_read-some old config key bytes size rest e = rw (e, config_read) refl

  pub drop-config_write :
      (buffer : List ℕ) (config : Config) (size : ℕ)
      → 4 ≤ length buffer
      → drop 4 (config_write p buffer config size)
        ≡ p.memory (config_write_messagepack p (p.init (drop 4 buffer) (size - 4)) config)
  unfolding config_write
  drop-config_write buffer config size l = drop-take-append 4 buffer _ l

  pub fits_all :
      (config : Config)
      → config.id < 2 ^ 8
      → config.application_crc < 2 ^ 32
      → config.application_size < 2 ^ 32
      → config.update_count < 2 ^ 32
      → length (c_str config.board_name) < 65
      → length (c_str config.device_class) < 65
      → length (c_str config.bootloader_commit) < 64
      → length (c_str config.bootloader_version) < 2 ^ 32
      → AllFit (values config)
  fits_all config id crc size count name class commit version = (
    omega arith,
    (
      omega arith,
      (
        omega arith,
        (
          omega arith,
          (
            omega arith,
            (
              omega arith,
              (
                omega arith,
                (
                  omega arith,
                  (
                    omega arith,
                    (
                      omega arith,
                      (
                        omega arith,
                        (
                          omega arith,
                          (
                            omega arith,
                            (omega arith, (omega arith, (omega arith, (omega arith, tt)))),
                          ),
                        ),
                      ),
                    ),
                  ),
                ),
              ),
            ),
          ),
        ),
      ),
    ),
  )
