-- ===== src/Facets.antt =====
-- The facet file of the index, and the values that sorting and filtering read from it: each document
-- has `facets_size_sum` bytes there, and each facet field an offset in them.
-- src/seekstorm/index.rs (FieldType, FacetField), src/seekstorm/search.rs (FacetValue, SortOrder).
use seek_storm.Base.{ℕ, ◌+◌, ◌*◌, List, Run, ◌>>=◌, unwrap, load, get_elem?}
use seek_storm.Floats.{Floats}
use seek_storm.Geo.{SortOrder, Point}
use seek_storm.Utils.{read_u16}

pub data FieldType : Type 0 where
  u8 u16 u32 u64 i8 i16 i32 i64 timestamp f32 f64 bool string string_set point text : FieldType

-- `values` holds the values of each entry of the index map, in its order; a text is its bytes.
pub record FacetField : Type 0 where
  pub field_type : FieldType
  pub offset : ℕ
  pub values : List (List (List ℕ))

-- What the search reads of the index.
pub record FacetIndex : Type 0 where
  pub facets : List FacetField
  pub facets_size_sum : ℕ
  pub facets_file_mmap : List ℕ

-- The base of a sort field: a point, or one of the values that sorting ignores.
pub data FacetValue (floats : Floats) : Type 0 where
  point_value : Point floats → FacetValue floats
  other_value : FacetValue floats

pub record ResultSortIndex (floats : Floats) : Type 0 where
  pub idx : ℕ
  pub order : SortOrder
  pub base : FacetValue floats

-- Where the value of a facet stands for a document.
abbrev pub position : FacetIndex → FacetField → ℕ → ℕ
position index facet doc_id = index.facets_size_sum * doc_id + facet.offset

-- `values.get_index(facet_id).unwrap().1.0[0]`, with the id that the document has.
unfoldable pub first_value : FacetIndex → FacetField → ℕ → Run (List ℕ)
first_value index facet doc_id = do
  facet_id ← read_u16 index.facets_file_mmap (position index facet doc_id)
  entry ← unwrap (get_elem? facet.values facet_id)
  load entry 0
