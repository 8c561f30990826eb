-- ===== src/Driver/CelFar/Session.antt =====
-- One round of user_program.c against the device.
use cn_lab.Base.{
  ℕ, suc, ◌+◌, ◌≤◌, ◌<◌, ◌≡◌, refl, ap, ◌∙◌, Option, none, some, List, [], ◌∷◌, ◌++◌, append_assoc,
  append-nil, true, arith, length, drop, take, drop_all, take_all, take_past,
}
use cn_lab.Base.Int.{ℤ, pos, negsuc, abs, ◌+ℤ◌, ◌-ℤ◌, ◌*ℤ◌, ◌/ℤ◌}
use cn_lab.Base.Decimal.{decimal, print_int, atoi_int, atoi_int-print_int, length-write_digits}
use cn_lab.Driver.CelFar.{Device, open_dev, convert, write_dev, read_dev}
use cn_lab.Driver.CelFar.Convert.{
  int_max, nine_small, shifted_small, fifth_small, ninth_small, c_to_f_exact, f_to_c_exact,
  atoi-print_int,
}

-- The menu's two choices.
pub data Choice : Type 0 where
  celsius fahrenheit : Choice

abbrev pub choice_number : Choice → ℕ
choice_number celsius = 1
choice_number fahrenheit = 2

-- sprintf(buf, "%d_%d", choice, temp) in a buffer of 100 bytes: what stands behind the NUL is junk.
abbrev pub request : Choice → ℤ → List ℕ → List ℕ
request choice temp junk = (b'0' + choice_number choice) ∷ b'_' ∷ (print_int temp ++ 0 ∷ junk)

-- The conversions on unbounded integers; the division rounds towards zero.
abbrev pub converted : Choice → ℤ → ℤ
converted celsius temp = temp *ℤ pos 9 /ℤ 5 +ℤ pos 32
converted fahrenheit temp = (temp -ℤ pos 32) *ℤ pos 5 /ℤ 9

-- The product that is divided is an int.
abbrev pub IsInRange : Choice → ℤ → Type 0
IsInRange celsius temp = abs (temp *ℤ pos 9) ≤ int_max
IsInRange fahrenheit temp = abs ((temp -ℤ pos 32) *ℤ pos 5) ≤ int_max

-- The write, the read, and atoi of the answer; the buffer was cleared before the read.
unfoldable pub round : Choice → ℤ → List ℕ → Device → Option (Device × ℤ)
round choice temp junk d = elim (write_dev (some (request choice temp junk)) 100 d) [
  | none ↦ none
  | some (d₁, n) ↦ elim (read_dev true 100 d₁) [
    | none ↦ none
    | some (d₂, m, bytes) ↦ some (d₂, atoi_int bytes)
  ]
]

converted-small :
    (choice : Choice) (temp : ℤ) → IsInRange choice temp → abs (converted choice temp) ≤ int_max
converted-small celsius temp h = fifth_small (temp *ℤ pos 9) h
converted-small fahrenheit temp h = ninth_small ((temp -ℤ pos 32) *ℤ pos 5) h

print_int-short : (a : ℤ) → abs a ≤ int_max → length (print_int a) < 100
unfolding print_int decimal
print_int-short (pos n) h = omega (arith, length-write_digits 9 n n [] (omega arith))
print_int-short (negsuc n) h = omega (arith, length-write_digits 9 (suc n) (suc n) [] (omega arith))

convert-request :
    (choice : Choice) (temp : ℤ) (junk : List ℕ) (d : Device)
    → IsInRange choice temp
    → convert (request choice temp junk) d ≡ record {
      mybuf = some (request choice temp junk);
      in_temp = temp;
      out_temp = converted choice temp;
    }
unfolding convert
convert-request celsius temp junk d h =
    rw (atoi-print_int temp junk (nine_small temp h), c_to_f_exact temp h)
convert-request fahrenheit temp junk d h =
    rw (atoi-print_int temp junk (shifted_small temp h), f_to_c_exact temp h)

write_full :
    (bytes old : List ℕ) (d : Device)
    → length old ≡ 100
    → length bytes ≡ 100
    → write_dev (some bytes) 100 (record d { mybuf = some old })
      ≡ some (convert bytes (record d { mybuf = some old }), pos 100)
unfolding write_dev
write_full bytes old d ho hb =
    rw (ho, drop_all 100 old (omega arith), take_all 100 bytes (omega arith), append-nil bytes)

write_request :
    (choice : Choice) (temp : ℤ) (junk old : List ℕ) (d : Device)
    → length old ≡ 100
    → length (request choice temp junk) ≡ 100
    → IsInRange choice temp
    → write_dev (some (request choice temp junk)) 100 (record d { mybuf = some old })
      ≡ some (
        record {
          mybuf = some (request choice temp junk);
          in_temp = temp;
          out_temp = converted choice temp;
        },
        pos 100,
      )
write_request choice temp junk old d ho hr range =
    write_full (request choice temp junk) old d ho hr
    ∙ ap (λ (c : Device). some (c, pos 100))
        (convert-request choice temp junk (record d { mybuf = some old }) range)

read_back :
    (d : Device) (old : List ℕ)
    → length old ≡ 100
    → abs d.out_temp ≤ int_max
    → (buf : List ℕ) × (bytes : List ℕ) × (read_dev true 100 (record d { mybuf = some old })
        ≡ some (record d { mybuf = some buf }, pos 1, bytes))
      × (atoi_int bytes ≡ d.out_temp)
unfolding read_dev
read_back d old ho h =
    let text = print_int d.out_temp ++ 0 ∷ [] in
    let rest = drop (length text) old in
    let (junk, e) = take_past 100 (print_int d.out_temp) 0 rest (print_int-short d.out_temp h) in
    let joined = append_assoc (print_int d.out_temp) (0 ∷ []) rest in
    (
      text ++ rest,
      take 100 (text ++ rest),
      rw ho,
      ap atoi_int (ap (take 100) joined ∙ e) ∙ atoi_int-print_int d.out_temp junk,
    )

round_steps :
    (choice : Choice) (temp : ℤ) (junk bytes : List ℕ) (d d₁ d₂ : Device) (n m : ℤ)
    → write_dev (some (request choice temp junk)) 100 d ≡ some (d₁, n)
    → read_dev true 100 d₁ ≡ some (d₂, m, bytes)
    → round choice temp junk d ≡ some (d₂, atoi_int bytes)
unfolding round
round_steps choice temp junk bytes d d₁ d₂ n m e e' = rw (e, e', round)

-- A round of the user program on an opened device prints the exact conversion of the temperature,
-- rounded towards zero before 32 is added, whatever the device's buffer and the user's buffer behind
-- the text held, if both have 100 bytes and the product that is divided, temp * 9 or
-- (temp - 32) * 5, is at most 2 ^ 31 - 1 in size.
pub round_lem :
    (choice : Choice) (temp : ℤ) (junk fresh : List ℕ) (d : Device)
    → length fresh ≡ 100
    → length (request choice temp junk) ≡ 100
    → IsInRange choice temp
    → (d' : Device) × (round choice temp junk (open_dev fresh d) ≡ some (d', converted choice temp))
      × (d'.in_temp ≡ temp)
      × (d'.out_temp ≡ converted choice temp)
unfolding open_dev
round_lem choice temp junk fresh d hf hr range =
    let d₁ : Device = record {
      mybuf = some (request choice temp junk);
      in_temp = temp;
      out_temp = converted choice temp;
    } in
    let (buf, bytes, e, value) =
      read_back d₁ (request choice temp junk) hr (converted-small choice temp range) in
    (
      record d₁ { mybuf = some buf },
      round_steps choice temp junk bytes (record d { mybuf = some fresh }) d₁
            (record d₁ { mybuf = some buf }) (pos 100) (pos 1)
            (write_request choice temp junk fresh d hf hr range) e
          ∙ (ap (λ (z : ℤ). some (record d₁ { mybuf = some buf }, z)) value),
      refl,
      refl,
    )
