-- ===== src/Tests/Storage.antt =====
-- The theorems on storage, on a disk that is a map from paths to contents.
use golang_base.Base.{
  ◌≢◌, ◌≤◌, true, none, some, [], Text, codes, Dict, lookup, insert, erase, lookup-insert, eq_refl,
  cut_suffix, ◌==◌, has_prefix, length, ◌≡◌, refl, arith,
}
use golang_base.Base.Paths
use golang_base.Base.Paths.{is_abs}
use golang_base.Domain.Errors.{external, message, ok, err}
use golang_base.Pkg.Storage.{
  Files, LocalProvider, leads_out, escapes, absolute, local_upload, local_download, local_provider,
  new_local_provider, safe_path,
}
use golang_base.Pkg.Storage.Inside.{Outcome, safe_path-IsUnder}
use golang_base.Storage.Limit.{upload_file-changes}
use golang_base.Storage.{FormFile, upload_file, object_key_of, upload, download}
use golang_base.Tests.Memory.Store.{ok-injective}
use golang_base.Pkg.Storage.Kept.{FilesLaws}

abbrev pub disk : Files (Dict Text)
disk = record {
  working_dir = λ f. ok (codes "/home");
  mkdir_all = λ path f. (ok tt, f);
  create = λ path f. (ok tt, insert path [] f);
  copy = λ path content f. (ok (length content), insert path content f);
  open_file =
      λ path f. (elim (lookup path f) [ none ↦ err (external 1) | some content ↦ ok content ], f);
  remove = λ path f. (ok tt, erase path f);
  stat = λ path f. (ok tt, f);
  is_not_exist = λ e. true;
  describe = λ e. [];
}

pub disk_laws : FilesLaws disk
disk_laws = record {
  open_copy = λ path content f n h. ground (arith, lookup-insert path path content f, eq_refl path);
}

-- What the runs compute with.
unfoldable paths : Unit {0}
unfolding Paths.push_byte Paths.split_on Paths.join_slash Paths.rev_onto Paths.go_up
    Paths.clean_part Paths.clean_parts Paths.dot_dots Paths.render Paths.is_abs Paths.clean
    Paths.join_path Paths.nonempty_parts Paths.after_common Paths.back_up Paths.rel_parts
    Paths.rel_path Paths.cut_last Paths.dir Paths.trim_right Paths.trim_left Paths.ext
    Paths.base_name leads_out escapes safe_path absolute new_local_provider local_upload
    local_download local_provider upload download object_key_of lookup insert cut_suffix ◌==◌
    has_prefix
paths = tt

abbrev srv : LocalProvider
srv = record { base_path = codes "/srv/data"; public_url = codes "/files" }

safe_path_tests :
    (safe_path srv (codes "a/../b//c.txt") ≡ ok (codes "/srv/data/b/c.txt"))
    × (safe_path srv (codes "a/../../etc")
        ≡ err (message (codes "invalid object key: a/../../etc")))
    × (safe_path srv [] ≡ ok (codes "/srv/data"))
unfolding paths
safe_path_tests = (refl, refl, refl)

safe_path-IsUnder_example : Outcome srv (codes "a/../b.txt")
unfolding paths
safe_path-IsUnder_example =
    safe_path-IsUnder disk (codes "/srv//x/../data/") (codes "/files") (codes "a/../b.txt") [] srv
      (λ wd h. rw (← ok-injective (codes "/home") wd h) refl) refl

abbrev note_txt : FormFile
note_txt = record {
  filename = codes "a b.txt";
  size = 2;
  content_type = [];
  content = some (codes "hi");
}

note_stored :
    (upload_file
      (local_provider disk srv)
      (λ n. [])
      (λ e. [])
      10
      (codes "id")
      (codes "2026/01")
      (some note_txt)
      (codes "docs")
      []).1
    ≢ []
unfolding paths upload_file
note_stored same = cc

upload_file-changes_example :
    (file : FormFile) × (content : Text) × (some note_txt ≡ some file)
    × (file.content ≡ some content)
    × (file.size ≤ 10)
upload_file-changes_example =
    upload_file-changes (local_provider disk srv) (λ n. []) (λ e. []) 10 (codes "id")
      (codes "2026/01") (some note_txt) (codes "docs") [] note_stored
