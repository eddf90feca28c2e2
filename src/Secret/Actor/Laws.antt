-- ===== src/Secret/Actor/Laws.antt =====
-- What holds of every sequence of calls.
use alknet.Prelude.{◌≡◌, refl, Bool, true, false, List, [], ◌∷◌, if◌then◌else◌, ap}
use alknet.Secret.Crypto.{Crypto}
use alknet.Secret.Cache.{default_config}
use alknet.Secret.Encryption.{panicked}
use alknet.Secret.Service.{ServiceInner}
use alknet.Secret.Service.Invariant.{
  IsConsistent, with_cache_config-IsConsistent, lock-IsConsistent,
}
use alknet.Secret.Service.Keeps.{
  unlock-IsConsistent, derive_ed25519-IsConsistent, derive_encryption_key-IsConsistent,
  derive_ethereum_key-IsConsistent, encrypt-IsConsistent, decrypt-IsConsistent,
  derive_password-keeps,
}
use alknet.Secret.Actor.{
  Message, derive_ed25519_at, derive_encryption_key_at, derive_ethereum_key_at, derive_password_at,
  encrypt_text, decrypt_blob, lock_service, unlock_with, Ambient, Handle, new, dispatch,
  handle_message, run,
}

if_inner :
    {A : Type 0} (P : ServiceInner → Type 0) (b : Bool) (x y : A × Handle)
    → P x.1.inner
    → P y.1.inner
    → P (if b then x else y).1.inner
if_inner P true x y p q = p
if_inner P false x y p q = q

if_true : {A : Type 0} (b : Bool) (x y : A) → b ≡ true → (if b then x else y) ≡ x
if_true true x y e = refl
if_true false x y e = cc

module _ (crypto : Crypto) (enabled : Bool) where
  dispatch-IsConsistent :
      (s : ServiceInner) (msg : Message) (a : Ambient)
      → IsConsistent crypto s
      → IsConsistent crypto (dispatch crypto enabled s msg a).1
  unfolding dispatch
  dispatch-IsConsistent s (derive_ed25519_at path) a v =
      derive_ed25519-IsConsistent crypto v path a.now
  dispatch-IsConsistent s (derive_encryption_key_at path) a v =
      derive_encryption_key-IsConsistent crypto v path a.now
  dispatch-IsConsistent s (derive_ethereum_key_at path) a v =
      derive_ethereum_key-IsConsistent crypto v enabled path a.now
  dispatch-IsConsistent s (derive_password_at path wanted) a v =
      rw (derive_password-keeps crypto v path wanted) v
  dispatch-IsConsistent s (encrypt_text plaintext key_version) a v =
      encrypt-IsConsistent crypto v plaintext key_version a.now a.iv a.salt
  dispatch-IsConsistent s (decrypt_blob encrypted) a v =
      decrypt-IsConsistent crypto v encrypted a.now
  dispatch-IsConsistent s lock_service a v = lock-IsConsistent crypto s
  dispatch-IsConsistent s (unlock_with phrase passphrase) a v =
      unlock-IsConsistent crypto v phrase passphrase

  handle_message-IsConsistent :
      (h : Handle) (msg : Message) (a : Ambient)
      → IsConsistent crypto h.inner
      → IsConsistent crypto (handle_message crypto enabled h msg a).1.inner
  unfolding handle_message
  handle_message-IsConsistent h msg a v =
      if_inner (IsConsistent crypto) h.poisoned _ _ v (dispatch-IsConsistent h.inner msg a v)

  run-IsConsistent_from :
      (calls : List (Message × Ambient)) (h : Handle)
      → IsConsistent crypto h.inner
      → IsConsistent crypto (run crypto enabled h calls).inner
  unfolding run
  run-IsConsistent_from [] h v = v
  run-IsConsistent_from ((msg, a) ∷ calls) h v =
      run-IsConsistent_from calls _ (handle_message-IsConsistent h msg a v)

  -- After any calls from a new handle, panics included, the mnemonic and the seed are present
  -- exactly while the service is unlocked, the cache is well formed, and each cached key is the one
  -- that its type and its path derive from the present seed, so that a locked service caches none.
  pub run-IsConsistent :
      (calls : List (Message × Ambient)) → IsConsistent crypto (run crypto enabled new calls).inner
  unfolding new
  run-IsConsistent calls =
      run-IsConsistent_from calls new (with_cache_config-IsConsistent crypto default_config)

  -- A poisoned lock makes a call panic, and it changes nothing.
  pub handle_message_of_poisoned :
      (h : Handle) (msg : Message) (a : Ambient)
      → h.poisoned ≡ true
      → handle_message crypto enabled h msg a ≡ (panicked, h)
  unfolding handle_message
  handle_message_of_poisoned h msg a e = if_true h.poisoned _ _ e

  -- While the lock is poisoned no sequence of calls changes anything, and the lock stays poisoned.
  pub run_of_poisoned :
      (calls : List (Message × Ambient)) (h : Handle)
      → h.poisoned ≡ true
      → run crypto enabled h calls ≡ h
  unfolding run
  run_of_poisoned [] h e = refl
  run_of_poisoned ((msg, a) ∷ calls) h e =
      rw (ap (λ r. r.1) (handle_message_of_poisoned h msg a e)) (run_of_poisoned calls h e)
