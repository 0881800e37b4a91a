-- ===== src/Protocol/Anchor.antt =====
-- The geometry that a shell may attach to a minimize or restore action (protocol.rs).
use Prim.Native.String.{len}
use melibea.Base.{
  ℕ, ◌≤◌, ◌<◌, ◌≡◌, ◌↔◌, true, false, not, ◌&&◌, ◌||◌, String, Result, ok, err, if◌then◌else◌, ltb,
  arith,
}
use melibea.Base.Float.{F64, is_finite, le_f64, zero_f64, Arithmetic}
use melibea.Base.Text.{text_is_empty}

abbrev pub max_output_name_bytes : ℕ
max_output_name_bytes = 256

pub record BubbleAnchor : Type 0 where
  pub output : String
  pub x : F64
  pub y : F64
  pub width : F64
  pub height : F64

pub data BubbleAnchorError : Type 0 where
  empty_output output_too_long non_finite_geometry non_positive_size invalid_edges :
      BubbleAnchorError

pub data WindowTransition : Type 0 where
  anchored : BubbleAnchor → WindowTransition
  disabled : WindowTransition

module _ (a : Arithmetic) where
  -- `BubbleAnchor::validate`
  unfoldable pub validate_anchor : BubbleAnchor → Result BubbleAnchorError (Unit {0})
  validate_anchor b =
      let right = a.add b.x b.width in
      let bottom = a.add b.y b.height in
      if text_is_empty b.output
      then err empty_output
      else if ltb max_output_name_bytes (len b.output)
      then err output_too_long
      else if not (is_finite b.x && (is_finite b.y && (is_finite b.width && is_finite b.height)))
      then err non_finite_geometry
      else if le_f64 b.width zero_f64 || le_f64 b.height zero_f64
      then err non_positive_size
      else if not (is_finite right)
          || (not (is_finite bottom) || (le_f64 right b.x || le_f64 bottom b.y))
      then err invalid_edges
      else ok tt

  -- `BubbleAnchor::new`
  unfoldable pub new_anchor : String → F64 → F64 → F64 → F64 → Result BubbleAnchorError BubbleAnchor
  new_anchor output x y width height =
      let anchor : BubbleAnchor = record {
        output = output;
        x = x;
        y = y;
        width = width;
        height = height;
      } in
      elim (validate_anchor anchor) [ ok _ ↦ ok anchor | err e ↦ err e ]

  -- `WindowTransition::validate`
  unfoldable pub validate_transition : WindowTransition → Result BubbleAnchorError (Unit {0})
  validate_transition (anchored anchor) = validate_anchor anchor
  validate_transition disabled = ok tt

  -- A finite value above 0.0, by its bits.
  abbrev pub IsPositive : F64 → Type 0
  IsPositive f = (0 < f.bits) × (f.bits < 0x7ff0000000000000)

  -- A rectangle that may be forwarded to niri.
  pub record IsSafe (b : BubbleAnchor) : Type 0 where
    pub named : text_is_empty b.output ≡ false
    pub short : len b.output ≤ max_output_name_bytes
    pub finite_x : is_finite b.x ≡ true
    pub finite_y : is_finite b.y ≡ true
    pub positive_width : IsPositive b.width
    pub positive_height : IsPositive b.height
    pub finite_right : is_finite (a.add b.x b.width) ≡ true
    pub finite_bottom : is_finite (a.add b.y b.height) ≡ true
    pub wide : le_f64 (a.add b.x b.width) b.x ≡ false
    pub tall : le_f64 (a.add b.y b.height) b.y ≡ false

  le_f64-IsPositive : (f : F64) → is_finite f ≡ true → le_f64 f zero_f64 ≡ false → IsPositive f
  unfolding is_finite le_f64
  le_f64-IsPositive f h k = ground arith

  IsPositive-le_f64 : (f : F64) → IsPositive f → (is_finite f ≡ true) × (le_f64 f zero_f64 ≡ false)
  unfolding is_finite le_f64
  IsPositive-le_f64 f h = ground arith

  validate_anchor-IsSafe : (b : BubbleAnchor) → validate_anchor b ≡ ok tt → IsSafe b
  unfolding validate_anchor
  validate_anchor-IsSafe b h = record {
    named = ground arith;
    short = ground arith;
    finite_x = ground arith;
    finite_y = ground arith;
    positive_width = le_f64-IsPositive b.width (ground arith) (ground arith);
    positive_height = le_f64-IsPositive b.height (ground arith) (ground arith);
    finite_right = ground arith;
    finite_bottom = ground arith;
    wide = ground arith;
    tall = ground arith;
  }

  IsSafe-validate_anchor : (b : BubbleAnchor) → IsSafe b → validate_anchor b ≡ ok tt
  unfolding validate_anchor
  IsSafe-validate_anchor b s =
      let (fw, pw) = IsPositive-le_f64 b.width s.positive_width in
      let (fh, ph) = IsPositive-le_f64 b.height s.positive_height in
      ground (arith, fw, pw, fh, ph, s.named, s.short)

  -- An anchor is accepted exactly if its output has a name of at most 256 bytes, its origin is finite,
  -- its width and height are finite and above 0.0, and its far edges are finite and beyond its origin.
  pub validate_anchor-exact : (b : BubbleAnchor) → (validate_anchor b ≡ ok tt) ↔ IsSafe b
  validate_anchor-exact b = (validate_anchor-IsSafe b, IsSafe-validate_anchor b)
