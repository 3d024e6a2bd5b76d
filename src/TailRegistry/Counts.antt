-- ===== src/TailRegistry/Counts.antt =====
-- nest-api/src/fs/tail-registry.service.ts: what the operations on the maps do to the counts of a
-- host and of a session.
use trekker.Prelude.{
  ℕ, ◌+◌, ◌-◌, ◌≤◌, true, List, [], ◌∷◌, ◌++◌, ◌≡◌, refl, ap, sym, subst, ◌∙◌, inl, inr, arith,
  if◌then◌else◌, if_either, leb, Bool-cases,
}
use trekker.Text.{Text, text_eq}
use trekker.Text.Laws.{text_eq_refl, eq_of_text_eq}
use trekker.TailRegistry.{change, forget, on_host, held_by, set_held, delete_held, release_session}
use trekker.TailRegistry.Entry.{TailEntry}

pub on_host-change :
    (host key : Text) (f : TailEntry → TailEntry)
    → ((e : TailEntry) → (f e).host_id ≡ e.host_id)
    → (es : List TailEntry) → on_host host (change key f es) ≡ on_host host es
unfolding on_host change
on_host-change host key f keeps [] = refl
on_host-change host key f keeps (e ∷ es) = elim (Bool-cases (text_eq e.key key)) [
  | inl same ↦ rw (same, keeps e) refl
  | inr other ↦ rw (other, on_host-change host key f keeps es) refl
]

pub on_host-forget :
    (host key : Text) (es : List TailEntry) → on_host host (forget key es) ≤ on_host host es
unfolding on_host forget
on_host-forget host key [] = omega arith
on_host-forget host key (e ∷ es) = let more = on_host-forget host key es in ground (arith, more)

pub on_host-append :
    (host : Text) (es : List TailEntry) (e : TailEntry)
    → on_host host (es ++ (e ∷ [])) ≡ on_host host es + (if text_eq e.host_id host then 1 else 0)
unfolding on_host
on_host-append host [] e = ground arith
on_host-append host (x ∷ es) e = let more = on_host-append host es e in ground (arith, more)

pub text_eq_same : (a b c : Text) → text_eq a c ≡ true → text_eq b c ≡ true → text_eq a b ≡ true
text_eq_same a b c h k =
    subst (λ t. text_eq a t ≡ true) (eq_of_text_eq a c h ∙ sym (eq_of_text_eq b c k))
      (text_eq_refl a)

pub held_by-set_held :
    (session other : Text) (n : ℕ) (counts : List (Text × ℕ))
    → held_by session (set_held other n counts)
      ≡ (if text_eq other session then n else held_by session counts)
unfolding held_by set_held
held_by-set_held session other n [] = refl
held_by-set_held session other n (s ∷ counts) = elim (Bool-cases (text_eq s.0 other)) [
  | inl same ↦
      (let k = ap (λ t. text_eq t session) (eq_of_text_eq s.0 other same) in
        rw (same) (ground (arith, k)))
  | inr apart ↦
      rw (apart, held_by-set_held session other n counts)
        (elim (Bool-cases (text_eq s.0 session)) [
          | inl e ↦ elim (Bool-cases (text_eq other session)) [
            | inl e' ↦ (let both = text_eq_same s.0 other session e e' in cc)
            | inr e' ↦ rw (e, e') refl
          ]
          | inr e ↦ rw (e) refl
        ])
]

pub held_by-delete_own :
    (session : Text) (counts : List (Text × ℕ)) → held_by session (delete_held session counts) ≡ 0
unfolding held_by delete_held
held_by-delete_own session [] = refl
held_by-delete_own session (s ∷ counts) = elim (Bool-cases (text_eq s.0 session)) [
  | inl same ↦ rw (same) (held_by-delete_own session counts)
  | inr apart ↦ rw (apart, apart) (held_by-delete_own session counts)
]

pub held_by-delete_held :
    (session other : Text) (counts : List (Text × ℕ))
    → held_by session (delete_held other counts) ≤ held_by session counts
unfolding held_by delete_held
held_by-delete_held session other [] = omega arith
held_by-delete_held session other (s ∷ counts) =
    let more = held_by-delete_held session other counts in
    elim (Bool-cases (text_eq s.0 other)) [
      | inl same ↦ rw (same) (elim (Bool-cases (text_eq s.0 session)) [
        | inl e ↦
            (let this : session ≡ other =
                sym (eq_of_text_eq s.0 session e) ∙ eq_of_text_eq s.0 other same in
              let gone : held_by session (delete_held other counts) ≡ 0 =
                subst (λ t. held_by session (delete_held t counts) ≡ 0) this
                  (held_by-delete_own session counts) in
              omega (arith, gone))
        | inr e ↦ rw (e) more
      ])
      | inr apart ↦ rw (apart) (ground (arith, more))
    ]

pub held_by-release :
    (session other : Text) (counts : List (Text × ℕ))
    → held_by session (release_session other counts) ≤ held_by session counts
unfolding release_session
held_by-release session other counts =
    if_either (λ (v : List (Text × ℕ)). held_by session v ≤ held_by session counts)
      (leb (held_by other counts) 1) (λ _. held_by-delete_held session other counts)
      (λ _. elim (Bool-cases (text_eq other session)) [
        | inl same ↦
            (let this = ap (λ t. held_by t counts) (eq_of_text_eq other session same) in
              let set = held_by-set_held session other (held_by other counts - 1) counts in
              ground (arith, this, set))
        | inr apart ↦
            (let set = held_by-set_held session other (held_by other counts - 1) counts in
              ground (arith, set))
      ])
