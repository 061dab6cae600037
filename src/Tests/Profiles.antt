-- ===== src/Tests/Profiles.antt =====
-- The goals of a sample: a joint goal over two scalar goals.
use rehearsal_db.Common.{
  ◌≡◌, refl, ◌↔◌, Bool, true, false, Option, none, some, List, [], ◌∷◌, ok, err, Text, codes,
  text_eq, text_lt, if◌then◌else◌, In,
}
use rehearsal_db.Shaping.Keys.{boolean, string, Row}
use rehearsal_db.Shaping.Policy.{ShapeDistribution, ShapeRecord, of_boolean, of_enum}
use rehearsal_db.Shaping.Buckets.{Bucket, Measures, category, joint}
use rehearsal_db.Shaping.Classify.{ClassContext, classify_shape_bucket, distribution_bucket_names}
use rehearsal_db.Shaping.Classes.{classify_shape_bucket-In}
use rehearsal_db.Shaping.Profiling.{ShapeProfiles, joint_bucket}
use rehearsal_db.Shaping.Joints.{IsSameIn, joint_bucket-eq_iff}

abbrev measures : Measures
measures = record {
  to_number = λ t. (true, true, t);
  parse_date = λ t. some t;
  below = text_lt;
  spelled = λ n. n ∷ [];
}

abbrev paid : ShapeDistribution
paid = record {
  goal = record {
    id = codes "paid";
    schema = codes "public";
    table = codes "orders";
    minimum_bucket_rows = 1;
  };
  column = some (codes "paid");
  kind = of_boolean;
  boundaries = [];
  values = [];
  include_other = false;
  relationship = none;
}

abbrev state : ShapeDistribution
state = record {
  goal = record {
    id = codes "state";
    schema = codes "public";
    table = codes "orders";
    minimum_bucket_rows = 1;
  };
  column = some (codes "state");
  kind = of_enum;
  boundaries = [];
  values = string (codes "open") ∷ string (codes "sent") ∷ [];
  include_other = false;
  relationship = none;
}

abbrev nothing_measured : ClassContext
nothing_measured = record { minimum = none; maximum = none; fanout = none }

abbrev row : Bool → Text → Row
row p s = (codes "paid", boolean p) ∷ (codes "state", string s) ∷ []

abbrev order : Bool → Text → ShapeRecord
order p s = record { schema = none; table = codes "orders"; row = row p s }

abbrev shop_row : Row
shop_row = row true (codes "sent")

shop_class : classify_shape_bucket measures state shop_row nothing_measured ≡ ok (category 1)
unfolding classify_shape_bucket text_eq
shop_class = refl

classify_shape_bucket-In_example : In (category 1) (distribution_bucket_names state)
classify_shape_bucket-In_example =
    classify_shape_bucket-In measures state shop_row nothing_measured (category 1) shop_class

abbrev value_of_goal : Text → ShapeRecord → Option Bucket
value_of_goal id r =
    elim (classify_shape_bucket measures (if text_eq id (codes "paid") then paid else state) r.row
      nothing_measured) [ err e ↦ none | ok b ↦ some b ]

abbrev profiles : ShapeProfiles
profiles = record { counts = λ id b. 0; assignments = value_of_goal }

abbrev goals : List Text
goals = codes "paid" ∷ codes "state" ∷ []

abbrev first_order : ShapeRecord
first_order = order true (codes "sent")

abbrev second_order : ShapeRecord
second_order = order false (codes "sent")

first_bucket : joint_bucket profiles (paid ∷ state ∷ []) goals first_order ≡ ok (joint 8)
unfolding joint_bucket text_eq classify_shape_bucket
first_bucket = refl

second_bucket : joint_bucket profiles (paid ∷ state ∷ []) goals second_order ≡ ok (joint 5)
unfolding joint_bucket text_eq classify_shape_bucket
second_bucket = refl

joint_bucket-eq_iff_example :
    (joint 8 ≡ joint 5) ↔ IsSameIn profiles (paid ∷ state ∷ []) goals first_order second_order
joint_bucket-eq_iff_example =
    joint_bucket-eq_iff profiles (paid ∷ state ∷ []) goals first_order second_order (joint 8)
      (joint 5) first_bucket second_bucket
