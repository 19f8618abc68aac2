-- ===== src/Checkpoint/Tests.antt =====
-- A codec, and inputs that meet the hypotheses of the theorems about checkpoints.
use mobile_money_simulator.Prelude.{
  ℕ, zero, suc, ◌+◌, ◌*◌, ◌/◌, ◌%◌, nat_beq, beq_ne, String, ◌≡◌, refl, ap, false, some, [], arith,
  if◌then◌else◌, ◌==◌, string_eq,
}
use mobile_money_simulator.Prelude.Int.{ℤ, pos, negsuc}
use mobile_money_simulator.Checkpoint.{
  Codec, Checkpoint, create_checkpoint, save_checkpoint, load_checkpoint,
}
use mobile_money_simulator.Checkpoint.Storage.{load_checkpoint-save_checkpoint}
use Prim.Native.Nat.{pred}

-- A number in unary, after one character for its sign.
abbrev pub unary : ℕ → String
unary zero = ""
unary (suc n) = String.◌∷◌ "1" (unary n)

abbrev pub count : String → ℕ
count String.[] = 0
count (String.◌∷◌ c s) = suc (count s)

count-unary : (n : ℕ) → count (unary n) ≡ n
count-unary zero = refl
count-unary (suc n) = ap suc (count-unary n)

abbrev pub print_amount : ℤ → String
print_amount (pos n) = unary (n * 2)
print_amount (negsuc n) = unary (n * 2 + 1)

abbrev pub amount_of : ℕ → ℤ
amount_of k = if nat_beq (k % 2) 0 then pos (k / 2) else negsuc (k / 2)

pub amount_of_print : (x : ℤ) → amount_of (count (print_amount x)) ≡ x
amount_of_print (pos n) = rw (count-unary (n * 2)) (even (n * 2) n refl)
  where
    even : (k n : ℕ) → k ≡ n * 2 → amount_of k ≡ pos n
    even k n e = ground arith
amount_of_print (negsuc n) = rw (count-unary (n * 2 + 1)) (odd (n * 2 + 1) n refl)
  where
    odd : (k n : ℕ) → k ≡ n * 2 + 1 → amount_of k ≡ negsuc n
    odd k n e = ground arith

pub date_nonempty : (t : ℕ) → (unary (suc t) == "") ≡ false
date_nonempty t = beq_ne (unary (suc t)) "" (λ e. cc)

pub date_read : (t : ℕ) → pred (count (unary (suc t))) ≡ t
date_read t = rw (count-unary t) refl

pub amount_nonempty : (x : ℤ) → (String.◌∷◌ "x" (print_amount x) == "") ≡ false
amount_nonempty x = beq_ne (String.◌∷◌ "x" (print_amount x)) "" (λ e. cc)

abbrev pub codec : Codec
codec = record {
  str = λ x. String.◌∷◌ "x" (print_amount x);
  decimal = λ s. amount_of (pred (count s));
  isoformat = λ t. unary (suc t);
  fromisoformat = λ s. pred (count s);
  decimal_str = amount_of_print;
  fromisoformat_isoformat = date_read;
  str_nonempty = amount_nonempty;
  isoformat_nonempty = date_nonempty;
}

abbrev saved : Checkpoint
saved = create_checkpoint 5 (pos 70) 3 "node_1" 1 (pos 100) (pos 30) 2

load_checkpoint-save_checkpoint_example :
    load_checkpoint codec 9 "k" (save_checkpoint codec saved "k" [])
    ≡ (if ◌==◌ {A = String} "k" "k" then some saved else load_checkpoint codec 9 "k" [])
load_checkpoint-save_checkpoint_example = load_checkpoint-save_checkpoint codec 9 saved "k" "k" []
