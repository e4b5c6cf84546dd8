-- ===== src/Telegram/Roundtrip.antt =====
-- The commands of `_created_response` and what the parsing of control_plane/telegram/
-- binding_service.py makes of them.
use ai_agent_desktop.Base.{
  ℕ, true, false, some, [], ◌∷◌, ◌++◌, ◌≡◌, refl, ap, subst, All, arith, is_empty, Bool-cases,
}
use ai_agent_desktop.Telegram.Rows.{Text, ChatType, private_chat, group, supergroup, channel, other}
use ai_agent_desktop.Telegram.Command.{
  codes, TelegramBotSlot, hermes, claude, codex, is_space, lstrip, rstrip, strip, scan, parts,
  put_word, text_eq, is_group_chat, extract_code, extract_words, addressed, bind_value, bare_code,
  first_slot, slot_prefix, bind_payload, private_command, group_command,
}

abbrev pub NoSpace : Text → Type 0
NoSpace text = All (λ c. is_space c ≡ false) text

scan-append :
    (word rest : Text) → NoSpace word → scan (word ++ rest) ≡ (word ++ (scan rest).0, (scan rest).1)
unfolding scan
scan-append [] rest h = refl
scan-append (c ∷ word) rest h =
    let later = scan-append word rest h.1 in let first = h.0 in rw first (rw later refl)

scan_word : (word : Text) → NoSpace word → scan word ≡ (word, [])
unfolding scan
scan_word [] h = refl
scan_word (c ∷ word) h = rw (h.0) (rw (scan_word word h.1) refl)

rstrip_word : (word : Text) → NoSpace word → rstrip word ≡ word
unfolding rstrip
rstrip_word [] h = refl
rstrip_word (c ∷ word) h = rw (h.0) (rw (rstrip_word word h.1) refl)

not_empty : (xs : Text) (c : ℕ) (word : Text) → is_empty (xs ++ c ∷ word) ≡ false
not_empty [] c word = refl
not_empty (x ∷ xs) c word = refl

rstrip-append :
    (xs : Text) (c : ℕ) (word : Text)
    → NoSpace (c ∷ word)
    → rstrip (xs ++ c ∷ word) ≡ xs ++ c ∷ word
unfolding rstrip
rstrip-append [] c word h = rstrip_word (c ∷ word) h
rstrip-append (x ∷ xs) c word h =
    let later = rstrip-append xs c word h in
    rw later (ground (arith, not_empty xs c word, Bool-cases (is_space x)))

snoc-append : (xs : Text) (a : ℕ) (ys : Text) → (xs ++ a ∷ []) ++ ys ≡ xs ++ a ∷ ys
snoc-append [] a ys = refl
snoc-append (x ∷ xs) a ys = ap (λ zs. x ∷ zs) (snoc-append xs a ys)

append_nil : (xs : Text) → xs ++ [] ≡ xs
append_nil [] = refl
append_nil (x ∷ xs) = ap (λ zs. x ∷ zs) (append_nil xs)

space_first : (text : Text) → scan (32 ∷ text) ≡ ([], put_word (scan text).0 (scan text).1)
unfolding scan is_space
space_first text = refl

NoSpace-append : (xs ys : Text) → NoSpace xs → NoSpace ys → NoSpace (xs ++ ys)
NoSpace-append [] ys h k = k
NoSpace-append (x ∷ xs) ys h k = (h.0, NoSpace-append xs ys h.1 k)

strip_two :
    (c : ℕ) (command : Text) (d : ℕ) (code : Text)
    → is_space c ≡ false
    → NoSpace (d ∷ code)
    → strip ((c ∷ command) ++ 32 ∷ d ∷ code) ≡ (c ∷ command) ++ 32 ∷ d ∷ code
unfolding strip lstrip
strip_two c command d code first k =
    let cut = rstrip-append (c ∷ command ++ 32 ∷ []) d code k in
    let same = snoc-append (c ∷ command) 32 (d ∷ code) in
    rw first (subst (λ t. rstrip t ≡ t) same cut)

-- Two words with a space between them.
parts_two :
    (c : ℕ) (command : Text) (d : ℕ) (code : Text)
    → NoSpace (c ∷ command)
    → NoSpace (d ∷ code)
    → parts ((c ∷ command) ++ 32 ∷ d ∷ code) ≡ (c ∷ command) ∷ (d ∷ code) ∷ []
unfolding parts
parts_two c command d code h k =
    let words = scan-append (c ∷ command) (32 ∷ d ∷ code) h in
    let code_words = scan_word (d ∷ code) k in
    rw (strip_two c command d code h.0 k)
      (rw words (rw (space_first (d ∷ code)) (rw code_words (rw (append_nil command) refl))))

-- A text is equal to itself.
text_eq_refl : (text : Text) → text_eq text text ≡ true
text_eq_refl [] = refl
text_eq_refl (c ∷ cs) = ground (arith, text_eq_refl cs)

bind_value-bind_payload :
    (slot : TelegramBotSlot) (code : Text)
    → bind_value (bind_payload slot code) ≡ (some code, some slot)
unfolding bind_value bare_code first_slot bind_payload
bind_value-bind_payload hermes code = refl
bind_value-bind_payload claude code = refl
bind_value-bind_payload codex code = refl

bind_payload-NoSpace :
    (slot : TelegramBotSlot) (code : Text) → NoSpace code → NoSpace (bind_payload slot code)
unfolding bind_payload is_space
bind_payload-NoSpace hermes code h = (
  refl,
  (refl, (refl, (refl, (refl, (refl, (refl, (refl, (refl, (refl, (refl, (refl, h))))))))))),
)
bind_payload-NoSpace claude code h = (
  refl,
  (refl, (refl, (refl, (refl, (refl, (refl, (refl, (refl, (refl, (refl, (refl, h))))))))))),
)
bind_payload-NoSpace codex code h =
    (refl, (refl, (refl, (refl, (refl, (refl, (refl, (refl, (refl, (refl, (refl, h)))))))))))

private_parts :
    (slot : TelegramBotSlot) (code : Text)
    → NoSpace code
    → parts (private_command slot code) ≡ codes "/bind" ∷ bind_payload slot code ∷ []
unfolding private_command bind_payload is_space
private_parts slot code h =
    parts_two 47 (codes "bind") 98 (codes "ind_" ++ slot_prefix slot ++ code)
      (refl, (refl, (refl, (refl, (refl, tt))))) (bind_payload-NoSpace slot code h)

group_parts :
    (username : Text) (slot : TelegramBotSlot) (code : Text)
    → NoSpace username
    → NoSpace code
    → parts (group_command username slot code)
      ≡ (codes "/bind@" ++ username) ∷ bind_payload slot code ∷ []
unfolding group_command bind_payload is_space
group_parts username slot code named h =
    parts_two 47 (codes "bind@" ++ username) 98 (codes "ind_" ++ slot_prefix slot ++ code)
      (refl, (refl, (refl, (refl, (refl, (refl, named)))))) (bind_payload-NoSpace slot code h)

module _ (casefold : Text → Text) where
  -- The command for the private chat of a bot is read there as the code and the slot, when
  -- casefold keeps the word "/bind" and the code has no white space.
  pub extract-private_command :
      (username : Text) (slot : TelegramBotSlot) (code : Text)
      → casefold (codes "/bind") ≡ codes "/bind"
      → NoSpace code
      → extract_code casefold (private_command slot code) private_chat username
        ≡ (some code, some slot)
  unfolding extract_code extract_words
  extract-private_command username slot code folds h =
      rw (private_parts slot code h) (rw folds (bind_value-bind_payload slot code))

  -- The command for a group, which names the bot, is read in a group or a supergroup as the code
  -- and the slot, when neither the bot's name nor the code has white space.
  pub extract-group_command :
      (username : Text) (slot : TelegramBotSlot) (code : Text) (chat : ChatType)
      → is_group_chat chat ≡ true
      → NoSpace username
      → NoSpace code
      → extract_code casefold (group_command username slot code) chat username
        ≡ (some code, some slot)
  unfolding extract_code extract_words addressed
  extract-group_command username slot code private_chat in_group named h = ground (arith, in_group)
  extract-group_command username slot code channel in_group named h = ground (arith, in_group)
  extract-group_command username slot code other in_group named h = ground (arith, in_group)
  extract-group_command username slot code group in_group named h =
      rw (group_parts username slot code named h) (
        rw (text_eq_refl (casefold (codes "/bind@" ++ username)))
          (bind_value-bind_payload slot code))
  extract-group_command username slot code supergroup in_group named h =
      rw (group_parts username slot code named h) (
        rw (text_eq_refl (casefold (codes "/bind@" ++ username)))
          (bind_value-bind_payload slot code))
