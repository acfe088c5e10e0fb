-- ===== src/Queue/Manager/Books.antt =====
-- queue/queue_manager.go: the wait group against the table of the attempts.
use call_center.Prelude.{
  ℕ, ◌+◌, ◌≤◌, ◌≡◌, sym, subst, ◌∙◌, Option, none, some, Option-cases, false, if◌then◌else◌, ◌==◌,
  ==_iff, inl, inr, arith, length, nat_key,
}
use call_center.Prelude.Int.{ℤ, pos, ◌==ℤ◌, int_key}
use call_center.Model.Member.{MemberAttempt, MemberCommunication}
use call_center.Lru.Elements.{Element}
use call_center.Lru.{Cache, find, get, add_with_default_expires}
use call_center.Lru.Answers.{get-answer, get-remove}
use call_center.Lru.Sizes.{get_size, get_expiry, remove_size, remove_expiry}
use call_center.Lru.Lasting.{
  Lasting, length-get, get-Lasting, remove-Lasting, length-remove, add-Added,
}
use call_center.Queue.Manager.{Manager, and_then, get_attempt, create_attempt, done, remove_attempt}

pub record Books (s : Manager) : Type 0 where
  pub lasting : Lasting s.members
  pub size : s.members.size ≡ 50000
  pub expiry : s.members.default_expiry ≡ pos 0
  pub counted : length s.members.evict_list ≤ s.wg
  pub bounded : s.wg ≤ s.attempt_count
  pub exact : s.attempt_count ≤ 50000 → s.wg ≡ length s.members.evict_list

-- Nothing of the table changes.
abbrev pub Same : Manager → Manager → Type 0
Same s u = (u.members ≡ s.members) × (u.wg ≡ s.wg) × (u.attempt_count ≡ s.attempt_count)

pub Same-Books : (s u : Manager) → Same s u → Books s → Books u
Same-Books s u (m, w, n) b = record {
  lasting = subst (λ c. Lasting c) (sym m) b.lasting;
  size = rw m b.size;
  expiry = rw m b.expiry;
  counted = rw (m, w) b.counted;
  bounded = rw (w, n) b.bounded;
  exact = λ h. rw (m, w) (b.exact (subst (λ k. k ≤ 50000) n h));
}

pub Same-trans : (s t u : Manager) → Same s t → Same t u → Same s u
Same-trans s t u (a, b, c) (d, e, f) = (d ∙ a, e ∙ b, f ∙ c)

-- If the method does not panic, this holds.
abbrev pub IfDone : (Manager → Type 0) → Option Manager → Type 0
IfDone P none = Unit
IfDone P (some u) = P u

pub and_then-IfDone :
    (P Q : Manager → Type 0) (o : Option Manager) (f : Manager → Option Manager)
    → IfDone P o
    → ((u : Manager) → P u → IfDone Q (f u))
    → IfDone Q (and_then o f)
and_then-IfDone P Q none f p k = tt
and_then-IfDone P Q (some u) f p k = k u p

pub get_attempt-Books : (now id : ℤ) (s : Manager) → Books s → Books (get_attempt now id s).0
unfolding get_attempt
get_attempt-Books now id s b = record {
  lasting = get-Lasting now s.members id b.lasting;
  size = get_size now s.members id ∙ b.size;
  expiry = get_expiry now s.members id ∙ b.expiry;
  counted = omega (arith, length-get now s.members id b.lasting, b.counted);
  bounded = b.bounded;
  exact = λ h. b.exact h ∙ sym (length-get now s.members id b.lasting);
}

-- A new attempt is one more of both, while there is room.
pub create_attempt-Books :
    (now : ℤ) (communication : MemberCommunication) (conf : MemberAttempt) (s : Manager)
    → Books s
    → find s.members conf.id ≡ none
    → Books (create_attempt now communication conf s).0
unfolding create_attempt add_with_default_expires
create_attempt-Books now communication conf s b free =
    let a =
      add-Added now s.members conf.id s.next b.lasting (omega (arith, b.size)) b.expiry free in
    record {
      lasting = a.lasting;
      size = a.same_size ∙ b.size;
      expiry = a.same_expiry ∙ b.expiry;
      counted = omega (arith, a.at_most, b.counted);
      bounded = omega (arith, b.bounded);
      exact = λ h.
          (let e = b.exact (omega arith) in
            omega (arith, e, a.one_more (omega (arith, e, b.size, b.bounded))));
    }

-- What the removal of an attempt leaves: one less of both, and an answer that changes for this id only.
pub record Left (id : ℤ) (s u : Manager) : Type 0 where
  pub books : Books u
  pub once : u.wg + 1 ≡ s.wg
  pub gone :
      (later j : ℤ)
      → (get_attempt later j u).1 ≡ (if id ==ℤ j then none else (get_attempt later j s).1)

-- The method does not panic, and then this holds.
abbrev pub Ends : (Manager → Type 0) → Option Manager → Type 0
Ends P none = ⊥
Ends P (some u) = P u

there :
    (now id : ℤ) (p : ℕ) (c : Cache ℤ ℕ)
    → (get now c id).1 ≡ some p
    → (e : Element ℤ ℕ) × (find c id ≡ some e)
there now id p c h = elim (Option-cases (find c id)) [
  | inl miss ↦ ground (arith, get-answer now c id)
  | inr (e, hit) ↦ (e, hit)
]

pub remove_attempt-Left :
    (now id : ℤ) (p : ℕ) (s : Manager)
    → Books s
    → (get_attempt now id s).1 ≡ some p
    → Ends (Left id s) (remove_attempt id s)
unfolding remove_attempt done get_attempt
remove_attempt-Left now id p s b hit =
    let (e, found) = there now id p s.members hit in
    let one = length-remove s.members id e b.lasting found in
    let live : (s.wg == 0) ≡ false = ground (arith, ==_iff s.wg 0, one, b.counted) in
    rw (live, done)
      (record {
        books = record {
          lasting = remove-Lasting s.members id b.lasting;
          size = remove_size s.members id ∙ b.size;
          expiry = remove_expiry s.members id ∙ b.expiry;
          counted = omega (arith, one, b.counted);
          bounded = omega (arith, b.bounded);
          exact = λ h. (let e = b.exact h in omega (arith, e, one));
        };
        once = omega (arith, one, b.counted);
        gone = λ later j. get-remove later s.members id j b.lasting.inv;
      })
