-- ===== src/Filter.antt =====
-- filter/: the record filters. A filter's Process calls next at most once, as its last act, so the
-- model returns the filter's new state and the record passed on, if any.
pub mod Names
pub mod Interface
pub mod External
pub mod Kinds
pub mod NotNull
pub mod StringMatch
pub mod ClearFields
pub mod Dedup
pub mod Slice
pub mod ExpandList
pub mod Concatenate
pub mod ReplaceFields
pub mod PartialClone
pub mod TimestampRange
pub mod RegexMatch
pub mod UrlEscape
pub mod UrlParam
pub mod Hash
pub mod SetStringFromUrl
pub mod Timestamp
pub mod CountAndTag
pub mod MetadataLastModified
pub mod MetadataCache
pub mod MetadataUrl
pub mod ExpandJson
pub mod ClauseFilter
pub mod Fixture
mod Tests
