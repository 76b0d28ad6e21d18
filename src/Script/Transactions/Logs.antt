-- ===== src/Script/Transactions/Logs.antt =====
-- The return value in a transaction's logs.
use solana_proxy.Prelude.{
  ◌≡◌, refl, ap, ◌∙◌, Bool, true, false, none, some, List, [], ◌∷◌, ◌++◌, ok, throw, log_undefined,
  ◌==◌, drop-append_length, all, not, arith, append_assoc,
}
use mathlib.Core.List.{reverse, reverse-append, reverse-cons}
use solana_proxy.Bytes.{Bytes}
use solana_proxy.Script.Transactions.{
  Log, starts_with, find_log, prefix, split_once, get_return_log,
}

-- A text without a space.
abbrev pub has_no_space : Log → Bool
has_no_space text = all (λ c. not (c == 32)) text

-- A log that does not start with the prefix.
abbrev pub is_other : Log → Bool
is_other log = not (starts_with prefix log)

split_once-append :
    (key text : Log) → has_no_space key ≡ true → split_once (key ++ 32 ∷ text) ≡ (key, some text)
unfolding split_once
split_once-append [] text h = refl
split_once-append (c ∷ key) text h =
    let rest = split_once-append key text (ground (arith, h)) in
    let here : (c == 32) ≡ false = ground (arith, h) in rw (here, rest) refl

split_once-last : (text : Log) → has_no_space text ≡ true → split_once text ≡ (text, none)
unfolding split_once
split_once-last [] h = refl
split_once-last (c ∷ text) h =
    let rest = split_once-last text (ground (arith, h)) in
    let here : (c == 32) ≡ false = ground (arith, h) in rw (here, rest) refl

starts_with-append : (p text : Log) → starts_with p (p ++ text) ≡ true
starts_with-append [] text = refl
starts_with-append (c ∷ p) text = ground (arith, starts_with-append p text)

find_log-append :
    (others : List Log) (log : Log) (logs : List Log)
    → all is_other others ≡ true
    → starts_with prefix log ≡ true
    → find_log prefix (others ++ log ∷ logs) ≡ some log
find_log-append [] log logs h s = rw s refl
find_log-append (other ∷ others) log logs h s =
    let skipped : starts_with prefix other ≡ false = ground (arith, h) in
    rw skipped (find_log-append others log logs (ground (arith, h)) s)

module _ {ℓ} {A : Type ℓ} (test : A → Bool) where
  all-append :
      (xs ys : List A) → all test xs ≡ true → all test ys ≡ true → all test (xs ++ ys) ≡ true
  all-append [] ys h k = k
  all-append (x ∷ xs) ys h k = ground (arith, h, all-append xs ys)

  all-reverse : (xs : List A) → all test xs ≡ true → all test (reverse xs) ≡ true
  all-reverse [] h = refl
  all-reverse (x ∷ xs) h =
      rw (reverse-cons x xs)
        (all-append (reverse xs) (x ∷ []) (all-reverse xs (ground (arith, h))) (ground (arith, h)))

find_log-none : (logs : List Log) → all is_other logs ≡ true → find_log prefix logs ≡ none
find_log-none [] h = refl
find_log-none (log ∷ logs) h =
    let skipped : starts_with prefix log ≡ false = ground (arith, h) in
    rw skipped (find_log-none logs (ground (arith, h)))

module _ (from_base64 : Log → Bytes) where
  -- Of the logs of a transaction, the last that starts with "Program return: " counts: where it goes on
  -- with a key, a space and a text without a space, these are returned, with what the text decodes to.
  pub get_return_log-last :
      (earlier later : List Log) (key payload : Log)
      → all is_other later ≡ true
      → has_no_space key ≡ true
      → has_no_space payload ≡ true
      → get_return_log from_base64 (some (earlier ++ (prefix ++ (key ++ 32 ∷ payload)) ∷ later))
        ≡ ok (record { key = key; payload = payload; buffer = from_base64 payload })
  unfolding get_return_log
  get_return_log-last earlier later key payload others k p =
      let log = prefix ++ (key ++ 32 ∷ payload) in
      let turned : reverse (earlier ++ log ∷ later) ≡ reverse later ++ log ∷ reverse earlier =
        reverse-append earlier (log ∷ later)
        ∙ ap (λ l. l ++ reverse earlier) (reverse-cons log later)
        ∙ append_assoc (reverse later) (log ∷ []) (reverse earlier) in
      let found =
        find_log-append (reverse later) log (reverse earlier) (all-reverse is_other later others)
          (starts_with-append prefix (key ++ 32 ∷ payload)) in
      rw
        (
          turned,
          found,
          drop-append_length prefix (key ++ 32 ∷ payload),
          split_once-append key payload k,
          split_once-last payload p,
        )
        refl

  -- Without such a log the function throws.
  pub get_return_log-none :
      (logs : List Log)
      → all is_other logs ≡ true
      → get_return_log from_base64 (some logs) ≡ throw log_undefined
  unfolding get_return_log
  get_return_log-none logs h = rw (find_log-none (reverse logs) (all-reverse is_other logs h)) refl
