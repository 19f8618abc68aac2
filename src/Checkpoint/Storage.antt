-- ===== src/Checkpoint/Storage.antt =====
-- What storage does to checkpoints.
use mobile_money_simulator.Prelude.{
  ℕ, String, ◌≡◌, refl, ◌∙◌, none, some, arith, if◌then◌else◌, ◌==◌, beq_refl, string_eq,
}
use mobile_money_simulator.Prelude.Int.{ℤ, pos}
use mobile_money_simulator.Dict.{lookup, lookup-insert}
use mobile_money_simulator.Checkpoint.{
  Codec, Checkpoint, Storage, create_checkpoint, to_dict, from_dict, save_checkpoint,
  load_checkpoint, get_or_create_checkpoint,
}

module _ (codec : Codec) where
  from_dict-to_dict : (now : ℕ) (c : Checkpoint) → from_dict codec now (to_dict codec c) ≡ c
  unfolding from_dict to_dict
  from_dict-to_dict now c =
      simp (codec.decimal_str, codec.fromisoformat_isoformat, codec.isoformat_nonempty)

  -- A checkpoint that is saved under a key is loaded from it unchanged, and what is stored under
  -- any other key is loaded as before.
  pub load_checkpoint-save_checkpoint :
      (now : ℕ) (c : Checkpoint) (key j : String) (storage : Storage)
      → load_checkpoint codec now j (save_checkpoint codec c key storage)
        ≡ (if key == j then some c else load_checkpoint codec now j storage)
  unfolding load_checkpoint save_checkpoint
  load_checkpoint-save_checkpoint now c key j storage =
      ground (arith, lookup-insert key j (to_dict codec c) storage, from_dict-to_dict now c)

  again :
      (now : ℕ) (c : Checkpoint) (key n : String) (a : ℕ) (b : ℤ) (storage : Storage)
      → load_checkpoint codec now key storage ≡ some c
      → get_or_create_checkpoint codec now key n a b storage ≡ (storage, c)
  unfolding get_or_create_checkpoint
  again now c key n a b storage found = rw (found, get_or_create_checkpoint) refl

  pub first_start :
      (now : ℕ) (key n : String) (a : ℕ) (b : ℤ) (storage : Storage)
      → lookup key storage ≡ none
      → get_or_create_checkpoint codec now key n a b storage ≡ (
        save_checkpoint codec (create_checkpoint now b 0 n a (pos 0) (pos 0) 0) key storage,
        create_checkpoint now b 0 n a (pos 0) (pos 0) 0,
      )
  unfolding get_or_create_checkpoint
  first_start now key n a b storage new = rw (new, get_or_create_checkpoint, load_checkpoint) refl

  -- A node that starts again finds the checkpoint that was last saved under its key, whatever
  -- initial balance it is given, and stores nothing; on a new key it starts from the initial
  -- balance, and a later start finds that checkpoint.
  pub get_or_create_checkpoint_recovers :
      (now later : ℕ) (c : Checkpoint) (key n : String) (a : ℕ) (b b' : ℤ) (storage : Storage)
      → let saved = save_checkpoint codec c key storage in
        let (storage', first) = get_or_create_checkpoint codec now key n a b storage in
        (get_or_create_checkpoint codec later key n a b' saved ≡ (saved, c))
        × (lookup key storage ≡ none
            → (first ≡ create_checkpoint now b 0 n a (pos 0) (pos 0) 0)
              × (get_or_create_checkpoint codec later key n a b' storage' ≡ (storage', first)))
  get_or_create_checkpoint_recovers now later c key n a b b' storage = (
    again later c key n a b' (save_checkpoint codec c key storage)
        (load_checkpoint-save_checkpoint later c key key storage ∙ rw (beq_refl key) refl),
    λ new.
        let fresh = create_checkpoint now b 0 n a (pos 0) (pos 0) 0 in
        let start = first_start now key n a b storage new in
        rw start (
          refl,
          again later fresh key n a b' (save_checkpoint codec fresh key storage) (
              load_checkpoint-save_checkpoint later fresh key key storage ∙ rw (beq_refl key) refl),
        ),
  )
