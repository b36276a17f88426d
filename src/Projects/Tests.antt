-- ===== src/Projects/Tests.antt =====
-- Three projects on pages of one, in a codec that leaves texts as they are.
use Prim.Native.Nat.{◌%◌}
use groundloom.Base.{
  ◌+◌, sym, String, none, some, List, [], ◌∷◌, ◌≡◌, ◌≢◌, refl, arith, suc, length, text_len, All,
  ap,
}
use groundloom.Encoded.{strip_padding, padding, join}
use groundloom.Encoded.Laws.{has_char}
use groundloom.Store.{Project, RuntimeContext, ok}
use groundloom.Projects.Pages.{CursorCodec, listing, follow}
use groundloom.Projects.Order.{IsKeyed}
use groundloom.Projects.Paging.{IsReadBack, follow-listing}

-- Cursors such as "1:p1" have four characters, so that nothing is padded.
abbrev plain : CursorCodec
plain = record {
  stamp = λ t. "1";
  read_stamp = λ s. some 1;
  b64encode = λ s. s;
  b64decode = λ s. some s;
}

abbrev reader : RuntimeContext
reader = record { user_id = "u1"; workspace_id = "w1"; roles = []; correlation_id = "c1" }

abbrev project : String → String → Project
project id workspace = record {
  id = id;
  workspace_id = workspace;
  name = "Plan";
  status = "active";
  updated_at = 1;
  current_config_version_id = none;
  current_content_version_id = none;
}

abbrev projects : List Project
projects = project "p1" "w1" ∷ project "p2" "w2" ∷ project "p3" "w1" ∷ []

projects-IsKeyed : IsKeyed projects
projects-IsKeyed = ((refl, (refl, tt)), ((refl, tt), (tt, tt)))

nonempty : (s : String) → text_len s ≢ 0 → s ≢ ""
unfolding text_len
nonempty s h e = h (ap text_len e)

join_nil : (s : String) → join s "" ≡ s
unfolding join
join_nil String.[] = refl
join_nil (String.◌∷◌ c s) = ap (String.◌∷◌ c) (join_nil s)

abbrev cursor : String → String
cursor id = join "1" (String.◌∷◌ ":" id)

-- A project whose cursor needs no padding.
read_back :
    (id workspace : String)
    → strip_padding (cursor id) ≡ cursor id
    → (text_len (cursor id) + 0) % 4 ≡ 0
    → text_len (cursor id) ≢ 0
    → IsReadBack plain (project id workspace)
unfolding has_char padding
read_back id workspace h k n = record {
  time = refl;
  no_colon = refl;
  bytes = refl;
  padded = record {
    core = cursor id;
    pads = 0;
    whole = sym (join_nil (cursor id));
    ends = h;
    few = omega arith;
    aligned = k;
  };
  not_empty = nonempty (cursor id) n;
}

projects-AreReadBack : All (IsReadBack plain) projects
unfolding join strip_padding text_len
projects-AreReadBack = (
  read_back "p1" "w1" refl refl (omega arith),
  (read_back "p2" "w2" refl refl (omega arith), (read_back "p3" "w1" refl refl (omega arith), tt)),
)

follow-listing_example :
    follow plain reader 1 projects (suc (length (listing reader projects))) none
    ≡ ok (listing reader projects)
follow-listing_example =
    follow-listing plain reader projects projects-IsKeyed projects-AreReadBack 1
