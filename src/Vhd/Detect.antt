-- ===== src/Vhd/Detect.antt =====
-- What `detect` and `detect_and_parse` of src/formats/vhd.rs leave behind and return.
use isomage.Prelude.{
  ℕ, ◌+◌, ◌-◌, ◌^◌, ◌≤◌, ◌<◌, ◌≡◌, sym, ap, ==_iff, not, List, ltb, ◌==◌, arith, Result, ok,
  if◌then◌else◌, length, Bool-cases, inl, inr,
}
use isomage.Text.{codes, str_eq}
use isomage.Bytes.{slice}
use isomage.Reader.{Reader, stream_position, M, map_error, seek_end, read_at, lift, fail, ◌>>=◌}
use isomage.Reader.Laws.{>>=-eq-ok, map_error-eq-ok, read_at-eq-ok}
use isomage.Reader.Keeps.{
  KeepsImage, >>=-KeepsImage, map_error-KeepsImage, read_at-KeepsImage, lift-KeepsImage,
  fail-KeepsImage, if-KeepsImage, seek_start_back,
}
use isomage.Tree.{
  TreeNode, new_directory, new_file_with_location, add_child, calculate_directory_size,
}
use isomage.Vhd.{
  Error, bad_magic, too_short, eof_error, footer_size, footer_cookie, detect_inner, detect, restore,
  Footer, read_footer, by_disk_type, parse_fixed, parse_dynamic, detect_and_parse, check_footer,
  check_dyn_header, disk_node, dyn_header_cookie,
}

read_cookie-KeepsImage :
    (n : ℕ)
    → KeepsImage {E = Error} {A = Unit {0}} (
        map_error eof_error (read_at n 8) >>= λ cookie.
        if not (str_eq cookie footer_cookie) then fail bad_magic else lift (ok tt))
read_cookie-KeepsImage n =
    >>=-KeepsImage (map_error eof_error (read_at n 8))
      (λ cookie. if not (str_eq cookie footer_cookie) then fail bad_magic else lift (ok tt))
      (map_error-KeepsImage eof_error (read_at n 8) (read_at-KeepsImage n 8))
      (λ cookie.
        if-KeepsImage (not (str_eq cookie footer_cookie)) (fail bad_magic) (lift (ok tt))
          (fail-KeepsImage (Unit {0}) bad_magic) (lift-KeepsImage {E = Error} (ok tt)))

detect_inner-KeepsImage : KeepsImage detect_inner
unfolding detect_inner seek_end
detect_inner-KeepsImage r =
    if-KeepsImage (ltb (length r.image) footer_size) (fail too_short)
      (map_error eof_error (read_at (length r.image - footer_size) 8) >>= λ cookie.
        if not (str_eq cookie footer_cookie) then fail bad_magic else lift (ok tt))
      (fail-KeepsImage (Unit {0}) too_short) (read_cookie-KeepsImage (length r.image - footer_size))
      (record r { pos = length r.image })

-- `detect` puts the cursor back where it was, at a position below 2 ^ 63, whatever it finds.
pub detect_restores_position : (r : Reader) → r.pos < 2 ^ 63 → (detect r).1 ≡ r
unfolding detect stream_position restore
detect_restores_position r h = seek_start_back r (detect_inner r).1 h (detect_inner-KeepsImage r)

-- The trees of the two disk types: data in place from byte 0, or a size and no place.
unfoldable pub fixed_tree : ℕ → TreeNode
fixed_tree n =
    calculate_directory_size
      (add_child (new_directory (codes "/")) (new_file_with_location (codes "disk.img") n 0 n))

unfoldable pub dynamic_tree : ℕ → TreeNode
dynamic_tree n = calculate_directory_size (add_child (new_directory (codes "/")) (disk_node n))

-- What a VHD image of `n` bytes with the footer `f` holds where it is read as `t`.
pub data IsRead (n : ℕ) (f : Footer) (t : TreeNode) : Type 0 where
  fixed : f.disk_type ≡ 2 → f.current_size + 512 ≤ n → t ≡ fixed_tree f.current_size → IsRead n f t
  dynamic :
      f.disk_type ≡ 3 → f.data_offset + 1024 ≤ n → t ≡ dynamic_tree f.current_size → IsRead n f t

parse_fixed-IsRead :
    (f : Footer) (file_len : ℕ) {t : TreeNode}
    → f.disk_type ≡ 2
    → 512 ≤ file_len
    → parse_fixed f.current_size file_len ≡ ok t
    → IsRead file_len f t
unfolding parse_fixed fixed_tree
parse_fixed-IsRead f file_len {t} two h e =
    elim (Bool-cases (ltb (file_len - footer_size) f.current_size)) [
      | inl big ↦ cc (rw big at e)
      | inr small ↦ fixed two (ground arith) (cc (rw small at e))
    ]

check_dyn_header-tree :
    (n : ℕ) (hdr : List ℕ) {t : TreeNode} → check_dyn_header n hdr ≡ ok t → t ≡ dynamic_tree n
unfolding dynamic_tree check_dyn_header
check_dyn_header-tree n hdr {t} e = elim (Bool-cases (str_eq (slice hdr 0 8) dyn_header_cookie)) [
  | inl same ↦ cc (rw same at e)
  | inr other ↦ cc (rw other at e)
]

parse_dynamic-IsRead :
    (f : Footer) (n : ℕ) (r r' : Reader) {t : TreeNode}
    → f.disk_type ≡ 3
    → parse_dynamic f n r ≡ (ok t, r')
    → n ≡ length r.image
    → IsRead n f t
unfolding parse_dynamic
parse_dynamic-IsRead f n r r' {t} three e len = elim (Bool-cases (ltb (n - 1024) f.data_offset)) [
  | inl big ↦ cc (rw big at e)
  | inr small ↦
      let (hdr, got, e₁) =
        >>=-eq-ok (map_error eof_error (read_at f.data_offset 1024))
          (λ hdr. lift (check_dyn_header f.current_size hdr)) r (rw small at e) in
      let (inside, _, _) =
        read_at-eq-ok f.data_offset 1024 r
          (map_error-eq-ok eof_error (read_at f.data_offset 1024) r got).0 in
      dynamic three (omega arith) (
        check_dyn_header-tree f.current_size hdr
          (ap (λ (p : Result Error TreeNode × Reader). p.0) e₁))
]

by_disk_type-IsRead :
    (f : Footer) (n : ℕ) (r r' : Reader) {t : TreeNode}
    → 512 ≤ n
    → n ≡ length r.image
    → by_disk_type f n r ≡ (ok t, r')
    → IsRead n f t
unfolding by_disk_type
by_disk_type-IsRead f n r r' {t} h len e = elim (Bool-cases (f.disk_type == 2)) [
  | inl two ↦
      parse_fixed-IsRead f n ((==_iff f.disk_type 2).0 two) h
        (ap (λ (p : Result Error TreeNode × Reader). p.0) (rw two at e))
  | inr other ↦ elim (Bool-cases (f.disk_type == 3)) [
    | inl three ↦
        parse_dynamic-IsRead f n r r' ((==_iff f.disk_type 3).0 three) (rw (other, three) at e) len
    | inr neither ↦ cc (rw (other, neither) at e)
  ]
]

read_footer-eq-ok :
    (n : ℕ) (r r' : Reader) {f : Footer}
    → read_footer n r ≡ (ok f, r')
    → (n + 512 ≤ length r.image) × (check_footer (slice r.image n (n + 512)) ≡ ok f)
unfolding read_footer
read_footer-eq-ok n r r' e =
    let (buf, got, e₁) =
      >>=-eq-ok (map_error eof_error (read_at n 512)) (λ buf. lift (check_footer buf)) r e in
    let (inside, is, _) =
      read_at-eq-ok n 512 r (map_error-eq-ok eof_error (read_at n 512) r got).0 in
    (inside, rw (← is) (ap (λ (p : Result Error Footer × Reader). p.0) e₁))

read_footer-KeepsImage : (n : ℕ) → KeepsImage (read_footer n)
unfolding read_footer
read_footer-KeepsImage n =
    >>=-KeepsImage (map_error eof_error (read_at n 512)) (λ buf. lift (check_footer buf))
      (map_error-KeepsImage eof_error (read_at n 512) (read_at-KeepsImage n 512))
      (λ buf. lift-KeepsImage (check_footer buf))

-- The rest of `detect_and_parse` once the length is known to hold a footer.
from_footer : (n : ℕ) → M Error TreeNode
from_footer n = read_footer (n - footer_size) >>= λ footer. by_disk_type footer n

from_footer-IsRead :
    (r r' : Reader) {t : TreeNode}
    → 512 ≤ length r.image
    → from_footer (length r.image) r ≡ (ok t, r')
    → (f : Footer) × (check_footer (slice r.image (length r.image - 512) (length r.image)) ≡ ok f)
      × IsRead (length r.image) f t
unfolding from_footer
from_footer-IsRead r r' {t} h e =
    let n = length r.image in
    let (f, got, e₁) = >>=-eq-ok (read_footer (n - 512)) (λ footer. by_disk_type footer n) r e in
    let r₁ = (read_footer (n - 512) r).1 in
    let (_, is) = read_footer-eq-ok (n - 512) r r₁ (λ i. (got i, r₁)) in
    let whole : n - 512 + 512 ≡ n = omega arith in
    (
      f,
      rw whole at is,
      by_disk_type-IsRead f n r₁ r' h (sym (ap (length) (read_footer-KeepsImage (n - 512) r))) e₁,
    )

-- An image that is read as `t` ends in a footer that passes all checks. A fixed disk's data is
-- the front of the image and does not reach into the footer; a dynamic disk's header lies in the
-- image.
pub detect_and_parse-IsRead :
    (r r' : Reader) {t : TreeNode}
    → detect_and_parse r ≡ (ok t, r')
    → (512 ≤ length r.image)
      × (f : Footer) × (check_footer (slice r.image (length r.image - 512) (length r.image)) ≡ ok f)
      × IsRead (length r.image) f t
unfolding detect_and_parse seek_end from_footer
detect_and_parse-IsRead r r' {t} e = elim (Bool-cases (ltb (length r.image) footer_size)) [
  | inl short ↦ cc (rw short at e)
  | inr long ↦
      let h : 512 ≤ length r.image = ground arith in
      let (f, is, read) =
        from_footer-IsRead (record r { pos = length r.image }) r' h (rw long at e) in
      (h, f, is, read)
]
